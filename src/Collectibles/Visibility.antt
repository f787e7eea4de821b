-- ===== src/Collectibles/Visibility.antt =====
-- Who is shown a collectible by `CollectibleService.GetByID`, with the cache in between.
use w1t.Base.{
  ℕ, String, false, ◌≡◌, refl, sym, ap, subst, ◌∙◌, List, Option, none, some, arith, find,
  find_holds, ==_iff, append_cancel,
}
use w1t.Errors.{sentinel, not_found}
use w1t.Model.Collectible.{Collectible}
use w1t.Cache.{get as cache_get}
use w1t.World.{World, Database, Cached, item, listing}
use w1t.Action.{spawn}
use w1t.Action.Rules.{Ends, Ends-mono, proceed-Ends, found-Ends, fail_if-Ends}
use w1t.Action.Frame.{Frame, read-Frame}
use w1t.Collectibles.Store.{has_id, get_by_id}
use w1t.Collectibles.Service.{
  is_withheld, item_key, store_in_cache, read_collectible, show_cached, get_collectible,
}
use w1t.Collectibles.Coherence.{Agrees, IsCoherent, Frame-IsCoherent, set-Coherent, get-Agrees}
use w1t.Collectibles.Upkeep.{Keeps}

-- Different ids have different texts.
abbrev pub IsInjective : (ℕ → String) → Type 0
IsInjective show = (m n : ℕ) → show m ≡ show n → m ≡ n

-- The viewer may see the collectible of the id, as it is in the table.
pub record Visible (id : ℕ) (roles : List String) (d : Database) (c : Collectible) : Type 0 where
  pub row : Collectible
  pub present : find (has_id id) d.collectibles ≡ some row
  pub status : row.status ≡ c.status
  pub allowed : is_withheld roles row ≡ false

withheld-status :
    (roles : List String) (x c : Collectible)
    → x.status ≡ c.status
    → is_withheld roles c ≡ false
    → is_withheld roles x ≡ false
withheld-status roles x c same h = ground (arith, same, h)

module _ (id : ℕ) (roles : List String) (w : World) where
  abbrev Shows : Collectible → World → Type 0
  Shows c v = Visible id roles w.db c × IsCoherent v

  cached-Shows :
      (x : Option Cached)
      → IsInjective w.env.uuid_string
      → IsCoherent w
      → ((y : Cached)
          → x ≡ some y
          → Agrees w.env.uuid_string w.db.collectibles (item_key (w.env.uuid_string id)) y)
      → Ends Shows Keeps (show_cached x id roles w)
  unfolding read_collectible get_by_id store_in_cache spawn
  cached-Shows none injective h agrees =
      proceed-Ends (λ row v. (row ≡ find (has_id id) w.db.collectibles) × Frame w v) Shows Keeps _ _
        (Ends-mono _ {R = λ row v. (row ≡ find (has_id id) w.db.collectibles) × Frame w v}
          (λ e v. Frame w v) {F = Keeps} _ (λ row v k. k) (λ e v k. Frame-IsCoherent w v k h)
          (read-Frame (λ now d. find (has_id id) d.collectibles) w))
        λ row v k.
          proceed-Ends (λ c u. (find (has_id id) w.db.collectibles ≡ some c) × Frame w u) Shows
            Keeps _ _
            (found-Ends _ Keeps row (sentinel not_found "") v (λ e. Frame-IsCoherent w v k.1 h)
              (λ c e. (sym k.0 ∙ e, k.1)))
            λ c u p.
              proceed-Ends (λ a t. (is_withheld roles c ≡ false) × Frame w t) Shows Keeps _ _
                (fail_if-Ends _ Keeps (is_withheld roles c) (sentinel not_found "") u
                  (λ e. Frame-IsCoherent w u p.1 h) (λ e. (e, p.1)))
                λ _ t q. proceed-Ends Keeps Shows Keeps _ _ (filled c t p.0 q.1) λ _ s coherent.
                  proceed-Ends Keeps Shows Keeps _ _ coherent λ _ r kept.
                    (record { row = c; present = p.0; status = refl; allowed = q.0 }, kept)
    where
      filled :
          (c : Collectible) (t : World)
          → find (has_id id) w.db.collectibles ≡ some c
          → Frame w t
          → Ends Keeps Keeps (store_in_cache (item_key (t.env.uuid_string id)) (item c) 120 t)
      filled c t found f =
          let here : find (has_id id) t.db.collectibles ≡ some c =
            ap (λ (d : Database). find (has_id id) d.collectibles) f.db ∙ found in
          let same : c.id ≡ id =
            (==_iff c.id id).0 (find_holds (has_id id) t.db.collectibles here) in
          set-Coherent t.env.uuid_string t.db.collectibles _ (item c) 120 t.now t.cache
            (
              ap (λ (n : ℕ). item_key (t.env.uuid_string n)) (sym same),
              c,
              subst (λ n. find (has_id n) t.db.collectibles ≡ some c) (sym same) here,
              refl,
            )
            (Frame-IsCoherent w t f h)
  cached-Shows (some (item c)) injective h agrees =
      let (key, x, found, status) = agrees (item c) refl in
      let same : id ≡ c.id = injective id c.id (append_cancel "collectible:" _ _ key) in
      proceed-Ends (λ a v. (is_withheld roles c ≡ false) × (v ≡ w)) Shows Keeps _ _
        (fail_if-Ends _ Keeps (is_withheld roles c) (sentinel not_found "") w (λ e. h)
          (λ e. (e, refl)))
        λ _ v k. (
          record {
            row = x;
            present = subst (λ n. find (has_id n) w.db.collectibles ≡ some x) (sym same) found;
            status = status;
            allowed = withheld-status roles x c status k.0;
          },
          subst IsCoherent (sym k.1) h,
        )
  cached-Shows (some (listing cs total)) injective h agrees = h

  -- Whatever calls fail, where the cache is coherent and different ids have different texts: who is
  -- shown a collectible may see it as it is in the table, where it is published, or the viewer is an
  -- administrator or compliance analyst; and the cache is coherent again.
  pub get_collectible-Shows :
      IsInjective w.env.uuid_string → IsCoherent w → Ends Shows Keeps (get_collectible id roles w)
  unfolding get_collectible
  get_collectible-Shows injective h =
      cached-Shows (cache_get (item_key (w.env.uuid_string id)) w.now w.cache) injective h
        (λ y found. get-Agrees w.env.uuid_string w.db.collectibles _ w.now w.cache y h found)
