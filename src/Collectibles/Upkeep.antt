-- ===== src/Collectibles/Upkeep.antt =====
-- Every method of the collectible service keeps the cache coherent, whatever calls fail.
use w1t.Base.{
  ℕ, String, Bool, true, false, not, ◌&&◌, ◌≡◌, sym, ap, subst, ◌∙◌, Option, none, some, find, ◌==◌,
  if◌then◌else◌,
}
use w1t.Errors.{Error, sentinel, not_found, forbidden}
use w1t.Model.Collectible.{Collectible}
use w1t.World.{World, Database}
use w1t.Action.{pure, proceed, query, ◌>>=◌}
use w1t.Action.Rules.{Ends, Ends-mono, proceed-Ends, recover-Ends, found-Ends, fail_if-Ends}
use w1t.Action.Frame.{Frame, Answered, query-Answered, read-Frame}
use w1t.Collectibles.Store.{has_id, get_by_id, create, save, hide, publish, insert_collectible}
use w1t.Collectibles.Service.{
  CreateCollectibleRequest, UpdateCollectibleRequest, refuse, validate_collectible_identity,
  new_collectible, invalidate_cache, create_collectible, existing, update_collectible,
  hide_collectible, publish_collectible, has_contract, has_token, has_chain, new_token_id,
}
use w1t.Collectibles.Coherence.{
  Coherent, IsCoherent, IsStale, Frame-IsCoherent, delete_prefix-Coherent,
}

-- The cache is coherent in the end.
abbrev pub Keeps : {A : Type 0} → A → World → Type 0
Keeps a v = IsCoherent v

abbrev Leaves : {A : Type 0} → A → World → Type 0
Leaves a v = IsStale v

existing-Keeps :
    (id : ℕ) (w : World)
    → IsCoherent w
    → Ends
        (λ c v. (find (has_id id) v.db.collectibles ≡ some c) × (IsCoherent v × Frame w v))
        Keeps
        (existing id w)
unfolding existing get_by_id
existing-Keeps id w h =
    proceed-Ends (λ row v. (row ≡ find (has_id id) w.db.collectibles) × Frame w v) Q Keeps _ _
      (Ends-mono _ {R = λ row v. (row ≡ find (has_id id) w.db.collectibles) × Frame w v}
        (λ e v. Frame w v) {F = Keeps} _ (λ row v k. k) (λ e v k. Frame-IsCoherent w v k h)
        (read-Frame (λ now d. find (has_id id) d.collectibles) w))
      λ row v k.
        found-Ends Q Keeps row (sentinel not_found "") v (λ e. Frame-IsCoherent w v k.1 h)
          (λ c e. (
            ap (λ (d : Database). find (has_id id) d.collectibles) k.1.db ∙ sym k.0 ∙ e,
            (Frame-IsCoherent w v k.1 h, k.1),
          ))
  where
    Q : Collectible → World → Type 0
    Q c v = (find (has_id id) v.db.collectibles ≡ some c) × (IsCoherent v × Frame w v)

-- A statement that writes leaves the cache as it was, and so coherent with the table before.
query-Leaves :
    {A : Type 0} (g : ℕ → Database → Option (A × Database)) (w : World)
    → IsCoherent w
    → Ends Leaves Keeps (query g w)
query-Leaves g w h =
    Ends-mono (Answered g w) {R = Leaves} (λ e v. Frame w v) {F = Keeps} _
      (λ a v k. (
        w.db.collectibles,
        subst (λ e. Coherent e.uuid_string w.db.collectibles v.cache) (sym k.env)
            (subst (Coherent w.env.uuid_string w.db.collectibles) (sym k.cache) h),
      ))
      (λ e v k. Frame-IsCoherent w v k h) (query-Answered g w)

invalidate-Keeps : (w : World) → IsStale w → Ends Keeps Keeps (invalidate_cache w)
unfolding invalidate_cache
invalidate-Keeps w (items, h) =
    delete_prefix-Coherent w.env.uuid_string items w.db.collectibles w.cache h

pub hide-Keeps :
    (id : ℕ) (reason : String) (admin : ℕ) (w : World)
    → IsCoherent w
    → Ends Keeps Keeps (hide_collectible id reason admin w)
unfolding hide_collectible hide
hide-Keeps id reason admin w h = proceed-Ends _ Keeps Keeps _ _ (existing-Keeps id w h) λ c v k.
    proceed-Ends Leaves Keeps Keeps _ _ (query-Leaves _ v k.1.0) (λ a u s. invalidate-Keeps u s)

pub publish-Keeps :
    (id : ℕ) (w : World) → IsCoherent w → Ends Keeps Keeps (publish_collectible id w)
unfolding publish_collectible publish
publish-Keeps id w h = proceed-Ends _ Keeps Keeps _ _ (existing-Keeps id w h) λ c v k.
    proceed-Ends Leaves Keeps Keeps _ _ (query-Leaves _ v k.1.0) (λ a u s. invalidate-Keeps u s)

pub update-Keeps :
    (id : ℕ) (req : UpdateCollectibleRequest) (actor : ℕ) (w : World)
    → IsCoherent w
    → Ends Keeps Keeps (update_collectible id req actor w)
unfolding update_collectible save
update-Keeps id req actor w h = proceed-Ends _ Keeps Keeps _ _ (existing-Keeps id w h) λ c v k.
    proceed-Ends Keeps Keeps Keeps _ _
      (fail_if-Ends Keeps Keeps (not (c.seller_id == actor)) (sentinel forbidden "") v (λ e. k.1.0)
        (λ e. k.1.0))
      λ _ u s.
        proceed-Ends Leaves Keeps Keeps _ _
          (recover-Ends Leaves Keeps Keeps _ _ (query-Leaves _ u s) (λ e t q. q))
          λ _ t stale. proceed-Ends Keeps Keeps Keeps _ _ (invalidate-Keeps t stale) (λ a r q. q)

refuse-Keeps : (o : Option Error) (w : World) → IsCoherent w → Ends Keeps Keeps (refuse o w)
refuse-Keeps none w h = h
refuse-Keeps (some e) w h = h

new_token-Keeps :
    (w : World)
    → IsCoherent w
    → Ends {A = String × ℕ} Keeps Keeps ((new_token_id >>= λ token. pure (token, 1)) w)
unfolding proceed
new_token-Keeps w h = h

identity-Keeps :
    (b : Bool) (token : String) (chain : ℕ) (w : World)
    → IsCoherent w
    → Ends {A = String × ℕ} Keeps Keeps
        ((if b then new_token_id >>= (λ t. pure (t, 1)) else pure (token, chain)) w)
identity-Keeps true token chain w h = new_token-Keeps w h
identity-Keeps false token chain w h = h

pub create-Keeps :
    (req : CreateCollectibleRequest) (seller : ℕ) (w : World)
    → IsCoherent w
    → Ends Keeps Keeps (create_collectible req seller w)
unfolding create_collectible create
create-Keeps req seller w h =
    proceed-Ends Keeps Keeps Keeps _ _ (refuse-Keeps (validate_collectible_identity req) w h)
      λ _ v k.
        proceed-Ends Keeps Keeps Keeps _ _
          (identity-Keeps (not (has_contract req) && (not (has_token req) && not (has_chain req)))
            req.token_id req.chain_id v k)
          λ identity u s.
            proceed-Ends Leaves Keeps Keeps _ _
              (recover-Ends Leaves Keeps Keeps _ _
                (query-Leaves
                  (insert_collectible (new_collectible req seller identity.0 identity.1)) u s)
                (λ e t q. q))
              λ c t stale.
                proceed-Ends Keeps Keeps Keeps _ _ (invalidate-Keeps t stale) (λ a r q. q)
