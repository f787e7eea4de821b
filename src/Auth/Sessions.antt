-- ===== src/Auth/Sessions.antt =====
-- What `AuthService.Refresh` does to the refresh tokens.
use w1t.Base.{
  ℕ, String, Bool, true, false, ◌≡◌, refl, sym, ap, subst, ◌∙◌, List, [], ◌∷◌, ◌++◌, some, arith,
  find, update, select, ltb, if◌then◌else◌, Bool-cases, inl, inr, ◌==◌, find-append_some,
}
use w1t.Errors.{sentinel, unauthorized}
use w1t.Model.User.{User, UserRole, RefreshToken}
use w1t.World.{World, Database}
use w1t.Action.{ok, pure, ◌>>=◌, query}
use w1t.Action.Rules.{Ends, Ends-mono, proceed-Ends, recover-Ends, fail_if-Ends, found-Ends}
use w1t.Action.Steady.{Settled, Any, skip-Ends, read-Settled, query-Steady}
use w1t.Auth.Store.{
  has_hash, has_token_id, is_live, set_revoked, insert_token, create_refresh_token,
  get_refresh_token_by_hash, revoke_refresh_token, get_by_id, get_user_roles, has_id,
}
use w1t.Auth.Service.{
  Cookie, is_revoked, refuse_reuse, renew_session, issue_refresh_token, new_uuid, refresh,
  generate_access_token, generate_csrf_token, session_cookies, role_names,
}

-- The refresh tokens of the world are `ts`.
abbrev Holds : List RefreshToken → World → Type 0
Holds ts v = v.db.refresh_tokens ≡ ts

-- A successor of `t` has been added to `ts`.
pub record Succeeds (t : RefreshToken) (ts ts' : List RefreshToken) : Type 0 where
  pub new : RefreshToken
  pub family : new.family_id ≡ t.family_id
  pub user : new.user_id ≡ t.user_id
  pub live : is_live new ≡ true
  pub added : ts' ≡ ts ++ (new ∷ [])

read-Holds :
    {A : Type 0} (f : ℕ → Database → A) (ts : List RefreshToken) (w : World)
    → Holds ts w
    → Ends (λ a v. Holds ts v) (λ e v. Holds ts v) (query (λ now d. some (f now d, d)) w)
read-Holds f ts w h =
    Ends-mono (λ a v. (a ≡ f w.now w.db) × Settled w v) {R = λ a v. Holds ts v} (λ e v. Settled w v)
      {F = λ e v. Holds ts v} _ (λ a v k. ap (λ (d : Database). d.refresh_tokens) k.1.db ∙ h)
      (λ e v k. ap (λ (d : Database). d.refresh_tokens) k.db ∙ h) (read-Settled f w)

insert-Succeeds :
    (t new : RefreshToken) (ts : List RefreshToken) (now : ℕ) (d d' : Database)
    → d.refresh_tokens ≡ ts
    → new.family_id ≡ t.family_id
    → new.user_id ≡ t.user_id
    → is_live new ≡ true
    → insert_token new now d ≡ some (tt, d')
    → Succeeds t ts d'.refresh_tokens
insert-Succeeds t new ts now d d' at family user live h = record {
  new = new;
  family = family;
  user = user;
  live = live;
  added = ground (arith, h, at);
}

create-Succeeds :
    (t new : RefreshToken) (ts : List RefreshToken) (w : World)
    → Holds ts w
    → new.family_id ≡ t.family_id
    → new.user_id ≡ t.user_id
    → is_live new ≡ true
    → Ends (λ a v. Succeeds t ts v.db.refresh_tokens) Any (create_refresh_token new w)
unfolding create_refresh_token
create-Succeeds t new ts w at family user live =
    Ends-mono _ (λ e v. Settled w v) _
      (λ a v h. insert-Succeeds t new ts w.now w.db v.db at family user live h.0) (λ e v k. tt)
      (query-Steady (insert_token new) w)

issue-Succeeds :
    (token : ℕ) (t : RefreshToken) (ts : List RefreshToken) (w : World)
    → Holds ts w
    → Ends
        (λ a v. Succeeds t ts v.db.refresh_tokens)
        Any
        (issue_refresh_token token t.user_id t.family_id w)
unfolding issue_refresh_token new_uuid
issue-Succeeds token t ts w at =
    proceed-Ends (λ id v. Holds ts v) R Any _ _ at
      λ id s h.
        proceed-Ends R R Any _ _
          (recover-Ends R Any Any _ _ (create-Succeeds t _ ts s h refl refl refl) (λ e v k. tt))
          λ a v k. k
  where
    R : {A : Type 0} → A → World → Type 0
    R a v = Succeeds t ts v.db.refresh_tokens

module _ (t : RefreshToken) (ts : List RefreshToken) where
  abbrev R : {A : Type 0} → A → World → Type 0
  R a v = Succeeds t ts v.db.refresh_tokens

  after_roles-Succeeds :
      (u : User) (rs : List UserRole) (w : World)
      → Holds ts w
      → Ends R Any (
          (do
            access ← generate_access_token u.id (role_names rs)
            token ← new_uuid
            fresh ← issue_refresh_token token t.user_id t.family_id
            csrf ← generate_csrf_token
            pure (session_cookies access fresh csrf))
            w)
  unfolding new_uuid
  after_roles-Succeeds u rs w at =
      proceed-Ends (λ a v. Holds ts v) R Any _ _ at
        λ access v h.
          proceed-Ends (λ a s. Holds ts s) R Any _ _ h
            λ token s k. proceed-Ends R R Any _ _ (issue-Succeeds token t ts s k) λ fresh r q.
              proceed-Ends R R Any _ _ (proceed-Ends R R Any _ _ q (λ n z y. y)) (λ csrf p z. z)

  renew-Succeeds : (w : World) → Holds ts w → Ends R Any (renew_session t w)
  unfolding renew_session get_by_id get_user_roles
  renew-Succeeds w at =
      proceed-Ends (λ row v. Holds ts v) R Any _ _
        (recover-Ends _ (λ e v. Holds ts v) Any _ _
          (read-Holds (λ now d. find (has_id t.user_id) d.users) ts w at) (λ e v h. h))
        λ row v h.
          proceed-Ends (λ u s. Holds ts s) R Any _ _
            (found-Ends _ Any row (sentinel unauthorized "") v (λ k. tt) (λ u k. h))
            λ u s h'.
              proceed-Ends (λ rs r. Holds ts r) R Any _ _
                (recover-Ends _ (λ e v. Holds ts v) Any _ _
                  (read-Holds (λ now d. select (λ (x : UserRole). x.user_id == u.id) d.user_roles)
                    ts s h')
                  (λ e r k. tt))
                λ rs r k. after_roles-Succeeds u rs r k

-- The token is known, neither revoked nor expired; in the end it is revoked and has a successor.
pub record Renewed (hash : String) (w v : World) : Type 0 where
  pub old : RefreshToken
  pub at : ℕ
  pub known : find (has_hash hash) w.db.refresh_tokens ≡ some old
  pub unrevoked : is_revoked old ≡ false
  pub unexpired : ltb old.expires_at w.now ≡ false
  pub next :
      Succeeds old
        (update (has_token_id old.id) (set_revoked at) w.db.refresh_tokens)
        v.db.refresh_tokens

refuse_reuse-Live :
    (b : Bool) (t : RefreshToken) (w : World)
    → Ends (λ a v. (b ≡ false) × (v ≡ w)) Any (refuse_reuse b t w)
refuse_reuse-Live true t w = skip-Ends (λ a v. (true ≡ false) × (v ≡ w)) _ _ (λ a v. tt)
refuse_reuse-Live false t w = (refl, refl)

revoke-Holds :
    (id : ℕ) (w : World)
    → Ends
        (λ a v. (at : ℕ) × Holds (update (has_token_id id) (set_revoked at) w.db.refresh_tokens) v)
        Any
        (revoke_refresh_token id w)
unfolding revoke_refresh_token
revoke-Holds id w =
    Ends-mono _
      {R = λ a v.
        (at : ℕ) × Holds (update (has_token_id id) (set_revoked at) w.db.refresh_tokens) v}
      (λ e v. Settled w v) _ (λ a v h. (w.now, ground (arith, h.0))) (λ e v h. tt)
      (query-Steady
        (λ now d. some (
          tt,
          record d { refresh_tokens = update (has_token_id id) (set_revoked now) d.refresh_tokens },
        ))
        w)

-- Whatever calls fail, a session is renewed only for a token that is known, neither revoked nor
-- expired; that token is revoked, and one live token of the same user and family is added.
pub refresh-Renewed :
    (token : String) (w : World)
    → Ends (λ cookies v. Renewed (w.env.sha256 token) w v) Any (refresh token w)
unfolding refresh get_refresh_token_by_hash
refresh-Renewed token w =
    proceed-Ends
      (λ row v. (row ≡ find (has_hash (w.env.sha256 token)) w.db.refresh_tokens) × Settled w v) Q
      Any _ _
      (recover-Ends _ (λ e v. Settled w v) Any _ _
        (read-Settled (λ now d. find (has_hash (w.env.sha256 token)) d.refresh_tokens) w)
        (λ e v k. tt))
      λ row v h.
        proceed-Ends (λ t s. (row ≡ some t) × Settled w s) Q Any _ _
          (found-Ends _ Any row (sentinel unauthorized "") v (λ k. tt) (λ t k. (k, h.1)))
          λ t s known.
            proceed-Ends (λ a r. (is_revoked t ≡ false) × (r ≡ s)) Q Any _ _
              (refuse_reuse-Live (is_revoked t) t s)
              λ _ r live.
                proceed-Ends (λ a q. (ltb t.expires_at r.now ≡ false) × (q ≡ r)) Q Any _ _
                  (fail_if-Ends _ Any (ltb t.expires_at r.now) _ r (λ k. tt) (λ k. (k, refl)))
                  λ _ q fresh.
                    proceed-Ends
                      (λ a p.
                        (at : ℕ) × Holds
                          (update (has_token_id t.id) (set_revoked at) q.db.refresh_tokens) p)
                      Q Any _ _ (recover-Ends _ Any Any _ _ (revoke-Holds t.id q) (λ e p k. tt))
                      λ _ p revoked.
                        let same : q.db ≡ w.db =
                          ap (λ (x : World). x.db) (fresh.1 ∙ live.1) ∙ known.1.db in
                        Ends-mono (λ a o. Succeeds t _ o.db.refresh_tokens) {R = Q} Any {F = Any} _
                          (λ a o next. record {
                            old = t;
                            at = revoked.0;
                            known = sym h.0 ∙ known.0;
                            unrevoked = live.0;
                            unexpired =
                                subst (λ n. ltb t.expires_at n ≡ false)
                                  (ap (λ (x : World). x.now) live.1 ∙ known.1.now) fresh.0;
                            next = next;
                          })
                          (λ e o k. tt)
                          (renew-Succeeds t
                            (update (has_token_id t.id) (set_revoked revoked.0) w.db.refresh_tokens)
                            p
                            (subst
                              (λ (d : Database).
                                Holds
                                  (update (has_token_id t.id) (set_revoked revoked.0)
                                    d.refresh_tokens)
                                  p)
                              same revoked.1))
  where
    Q : List Cookie → World → Type 0
    Q cookies v = Renewed (w.env.sha256 token) w v

-- The first row under a hash, after every row of an id has been revoked.
find-revoked :
    (hash : String) (id at : ℕ) (ts : List RefreshToken) (t : RefreshToken)
    → find (has_hash hash) ts ≡ some t
    → t.id ≡ id
    → find (has_hash hash) (update (has_token_id id) (set_revoked at) ts) ≡ some (set_revoked at t)
find-revoked hash id at [] t h e = cc
find-revoked hash id at (x ∷ ts) t h e = elim (Bool-cases (has_hash hash x)) [
  | inl hit ↦ by_id_hit (has_token_id id x) refl hit
  | inr miss ↦
      by_id_miss (has_token_id id x) miss (find-revoked hash id at ts t (ground (arith, h, miss)) e)
]
  where
    by_id_hit :
        (b : Bool)
        → has_token_id id x ≡ b
        → has_hash hash x ≡ true
        → find
            (has_hash hash)
            ((if b then set_revoked at x else x) ∷ update (has_token_id id) (set_revoked at) ts)
          ≡ some (set_revoked at t)
    by_id_hit true k hit =
        let same : x ≡ t = ground (arith, h, hit) in
        ap
          (λ (c : Bool).
            if c
            then some (set_revoked at x)
            else find (has_hash hash) (update (has_token_id id) (set_revoked at) ts))
          hit
        ∙ ap (λ (y : RefreshToken). some (set_revoked at y)) same
    by_id_hit false k hit =
        let same : x ≡ t = ground (arith, h, hit) in
        absurd (ground (arith, k, e, ap (λ (y : RefreshToken). y.id) same))

    by_id_miss :
        (b : Bool)
        → has_hash hash x ≡ false
        → find (has_hash hash) (update (has_token_id id) (set_revoked at) ts)
          ≡ some (set_revoked at t)
        → find
            (has_hash hash)
            ((if b then set_revoked at x else x) ∷ update (has_token_id id) (set_revoked at) ts)
          ≡ some (set_revoked at t)
    by_id_miss true miss k = rw miss k
    by_id_miss false miss k = rw miss k

-- A refresh token works once: after it has renewed a session, the same token
-- is refused with the refresh tokens as they were left, at any time and
-- whatever calls fail.
pub refresh_once :
    (token : String) (w v u : World) (cookies : List Cookie)
    → refresh token w ≡ ok cookies v
    → u.db.refresh_tokens ≡ v.db.refresh_tokens
    → u.env.sha256 token ≡ w.env.sha256 token
    → Ends {A = List Cookie} (λ c x. ⊥) Any (refresh token u)
refresh_once token w v u cookies done tables hashes =
    Ends-mono _ Any _ (λ c x again. refused again) (λ e x k. tt) (refresh-Renewed token u)
  where
    first : Renewed (w.env.sha256 token) w v
    first =
        subst (Ends (λ c x. Renewed (w.env.sha256 token) w x) Any) done (refresh-Renewed token w)

    found_again :
        find (has_hash (w.env.sha256 token)) u.db.refresh_tokens
        ≡ some (set_revoked first.at first.old)
    found_again =
        ap (find (has_hash (w.env.sha256 token))) (tables ∙ first.next.added)
        ∙ find-append_some (has_hash (w.env.sha256 token)) _ _ (
            find-revoked (w.env.sha256 token) first.old.id first.at w.db.refresh_tokens first.old
              first.known refl)

    refused : {x : World} → Renewed (u.env.sha256 token) u x → ⊥
    refused again =
        let same : some again.old ≡ some (set_revoked first.at first.old) =
          sym
            (subst (λ h. find (has_hash h) u.db.refresh_tokens ≡ some again.old) hashes again.known)
          ∙ found_again in
        absurd (ground (arith, same, again.unrevoked))
