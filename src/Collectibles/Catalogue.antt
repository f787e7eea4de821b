-- ===== src/Collectibles/Catalogue.antt =====
-- What `CollectibleService.List` shows and leaves in the cache.
use w1t.Base.{
  ℕ, String, ◌≡◌, refl, sym, ap, subst, ◌∙◌, List, Option, none, some, map, count, select, page_of,
  All,
}
use w1t.Model.Collectible.{Collectible}
use w1t.Cache.{get as cache_get}
use w1t.World.{World, Database, Cached, item, listing}
use w1t.Action.Rules.{Ends, Ends-mono, proceed-Ends}
use w1t.Action.Frame.{Frame, read-Frame}
use w1t.Experiments.Rules.{emit_event-Frame}
use w1t.Collectibles.Store.{count_listed, list, is_listed, summary}
use w1t.Collectibles.Service.{
  list_collectibles, list_key, visible_status, read_page, show_page, store_in_cache,
}
use w1t.Collectibles.Coherence.{
  Agrees, IsCoherent, IsOnPage, Frame-IsCoherent, set-Coherent, get-Agrees,
}
use w1t.Collectibles.Upkeep.{Keeps}
use w1t.Collectibles.Listing.{MaySee, page-IsOnPage, All-not_withheld}

module _ (asked : String) (page size : ℕ) (roles : List String) (user : Option ℕ) (w : World) where
  abbrev Shows : List Collectible × ℕ → World → Type 0
  Shows r v = All (MaySee roles w.db.collectibles) r.0 × IsCoherent v

  abbrev status : String
  status = visible_status roles asked

  read_page-Shows : IsCoherent w → Ends Shows Keeps (read_page status page size user w)
  unfolding read_page count_listed list store_in_cache
  read_page-Shows h =
      proceed-Ends (λ n v. Frame w v) Shows Keeps _ _
        (Ends-mono _ {R = λ n v. Frame w v} (λ e v. Frame w v) {F = Keeps} _ (λ n v k. k.1)
          (λ e v k. Frame-IsCoherent w v k h)
          (read-Frame (λ now d. count (is_listed status) d.collectibles) w))
        λ n v f.
          proceed-Ends (λ cs u. All (IsOnPage w.db.collectibles status) cs × (Frame v u)) Shows
            Keeps _ _
            (Ends-mono _ {R = λ cs u. All (IsOnPage w.db.collectibles status) cs × Frame v u}
              (λ e u. Frame v u) {F = Keeps} _
              (λ cs u k. (
                subst (All (IsOnPage w.db.collectibles status)) (sym (k.0 ∙ ap page_in f.db))
                    (page-IsOnPage status page size w.db.collectibles),
                k.1,
              ))
              (λ e u k. Frame-IsCoherent v u k (Frame-IsCoherent w v f h))
              (read-Frame (λ now d. page_in d) v))
            λ cs u k.
              proceed-Ends Keeps Shows Keeps _ _
                (set-Coherent u.env.uuid_string u.db.collectibles (list_key status page size)
                  (listing cs n) 30 u.now u.cache
                  (
                    status,
                    page,
                    size,
                    refl,
                    subst (λ (d : Database). All (IsOnPage d.collectibles status) cs)
                        (sym (k.1.db ∙ f.db)) k.0,
                  )
                  (Frame-IsCoherent v u k.1 (Frame-IsCoherent w v f h)))
                λ _ t q.
                  proceed-Ends (λ a r. Frame t r) Shows Keeps _ _
                    (emit_event-Frame Keeps user "catalog_view" none t)
                    λ _ r g. (
                      All-not_withheld w.db.collectibles asked status page size page size roles cs
                          refl k.0,
                      Frame-IsCoherent t r g q,
                    )
    where
      page_in : Database → List Collectible
      page_in d = map summary (page_of page size (select (is_listed status) d.collectibles))

  -- Each collectible of the page may be seen by the viewer, by a row of the table.
  pub list_collectibles-Shows :
      IsCoherent w → Ends Shows Keeps (list_collectibles asked page size roles user w)
  unfolding list_collectibles
  list_collectibles-Shows h =
      by_cached (cache_get (list_key status page size) w.now w.cache) (λ y found.
        get-Agrees w.env.uuid_string w.db.collectibles (list_key status page size) w.now w.cache y h
          found)
    where
      by_cached :
          (x : Option Cached)
          → ((y : Cached)
              → x ≡ some y
              → Agrees w.env.uuid_string w.db.collectibles (list_key status page size) y)
          → Ends Shows Keeps (show_page x status page size user w)
      by_cached none agrees = read_page-Shows h
      by_cached (some (item c)) agrees = h
      by_cached (some (listing cs n)) agrees =
          let (s, p, z, at, rows) = agrees (listing cs n) refl in
          (All-not_withheld w.db.collectibles asked s page size p z roles cs at rows, h)
