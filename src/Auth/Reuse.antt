-- ===== src/Auth/Reuse.antt =====
-- What `AuthService.Refresh` does with a token that was revoked before.
use w1t.Base.{
  ℕ, String, Bool, true, false, ◌≡◌, refl, sym, ap, subst, ◌∙◌, List, [], ◌∷◌, Option, some, arith,
  find, update, All, ◌==◌, ◌&&◌, if◌then◌else◌,
}
use w1t.Errors.{sentinel, unauthorized}
use w1t.Model.User.{RefreshToken}
use w1t.World.{World}
use w1t.Action.{Result, ok, err, Action, proceed, recover, raise}
use w1t.Action.Calm.{IsCalm, read_calm, query_calm, proceed_ok, recover_ok}
use w1t.Auth.Store.{
  has_hash, is_live, is_live_of_family, set_revoked, get_refresh_token_by_hash,
  revoke_refresh_token_family,
}
use w1t.Auth.Service.{Cookie, is_revoked, refuse_reuse, refresh}

-- No token of the family can be used any more.
abbrev pub IsDead : ℕ → List RefreshToken → Type 0
IsDead family = All (λ x. x.family_id ≡ family → is_live x ≡ false)

revoke-IsDead :
    (family now : ℕ) (ts : List RefreshToken)
    → IsDead family (update (is_live_of_family family) (set_revoked now) ts)
revoke-IsDead family now [] = tt
revoke-IsDead family now (x ∷ ts) = (one (is_live x) refl, revoke-IsDead family now ts)
  where
    one :
        (b : Bool)
        → is_live x ≡ b
        → (if x.family_id == family && b then set_revoked now x else x).family_id ≡ family
        → is_live (if x.family_id == family && b then set_revoked now x else x) ≡ false
    one b h e = ground (arith, h, e)

module _ (token : String) (w : World) (calm : IsCalm w) (t : RefreshToken)
    (known : find (has_hash (w.env.sha256 token)) w.db.refresh_tokens ≡ some t)
    (revoked : is_revoked t ≡ true) where
  abbrev Refused : Result (List Cookie) → Type 0
  Refused r =
      (v : World) × (r ≡ err (sentinel unauthorized "") v) × IsDead t.family_id v.db.refresh_tokens

  refuse_reuse-Refused :
      (b : Bool) (f : Unit {0} → Action (List Cookie))
      → b ≡ true
      → Refused (proceed (refuse_reuse b t w) f)
  unfolding revoke_refresh_token_family proceed recover
  refuse_reuse-Refused true f h =
      subst
        (λ (r : Result (Unit {0})).
          Refused
            (proceed (proceed (recover r (λ e. ok tt)) (λ a. raise (sentinel unauthorized ""))) f))
        (sym (query_calm _ w calm)) (_, refl, revoke-IsDead t.family_id w.now w.db.refresh_tokens)
  refuse_reuse-Refused false f h = absurd (ground (arith, h))

  -- Where no database call fails, presenting a token that was revoked is refused as unauthorized, and
  -- afterwards no token of its family is live.
  pub refresh-Refused :
      (v : World) × (refresh token w ≡ err (sentinel unauthorized "") v)
      × IsDead t.family_id v.db.refresh_tokens
  unfolding refresh get_refresh_token_by_hash
  refresh-Refused =
      proceed_ok Refused _ _
        (recover_ok _ _ (
          read_calm (λ now d. find (has_hash (w.env.sha256 token)) d.refresh_tokens) w calm
          ∙ ap (λ (o : Option RefreshToken). ok o w) known))
        (proceed_ok Refused _ _ refl (refuse_reuse-Refused (is_revoked t) _ revoked))
