-- ===== src/Collectibles/History.antt =====
-- Histories of requests to the collectible service, and what a viewer is shown after them.
use w1t.Base.{
  ℕ, suc, String, Bool, true, false, ◌≡◌, refl, sym, subst, ◌∙◌, List, [], Option, some, arith,
  update, All, All-map, if◌then◌else◌,
}
use w1t.Base.Keyed.{find-update, All-select}
use w1t.Model.Collectible.{Collectible}
use w1t.Cache.{Entry, cleanup}
use w1t.World.{World, Database, Cached, item, listing}
use w1t.Action.{Result, ok, err, world_of}
use w1t.Action.Rules.{Ends, Ends-mono}
use w1t.Action.Frame.{Frame, Answered, query-Answered}
use w1t.Collectibles.Store.{has_id, increment_view_count}
use w1t.Collectibles.Service.{
  CreateCollectibleRequest, UpdateCollectibleRequest, create_collectible, update_collectible,
  hide_collectible, publish_collectible, get_collectible, list_collectibles,
}
use w1t.Collectibles.Coherence.{Agrees, Coherent, IsCoherent, Frame-IsCoherent}
use w1t.Collectibles.Upkeep.{Keeps, hide-Keeps, publish-Keeps, update-Keeps, create-Keeps}
use w1t.Collectibles.Listing.{MaySee, update-IsOnPage}
use w1t.Collectibles.Catalogue.{list_collectibles-Shows}
use w1t.Collectibles.Visibility.{IsInjective, Visible, get_collectible-Shows}

-- A view that is counted leaves the statuses alone.
view-Keeps : (id : ℕ) (w : World) → IsCoherent w → Ends Keeps Keeps (increment_view_count id w)
unfolding increment_view_count
view-Keeps id w h =
    Ends-mono (Answered _ w) {R = Keeps} (λ e v. Frame w v) {F = Keeps} _
      (λ a v k.
        subst (λ e. Coherent e.uuid_string v.db.collectibles v.cache) (sym k.env)
          (subst (Coherent w.env.uuid_string v.db.collectibles) (sym k.cache) (
            subst (λ items. Coherent w.env.uuid_string items w.cache) (written k.answer)
              (All-map _ _ w.cache (λ e p. seen e.key e.value p) h))))
      (λ e v k. Frame-IsCoherent w v k h) (query-Answered _ w)
  where
    viewed : Collectible → Collectible
    viewed x = record x { view_count = suc x.view_count }

    seen :
        (key : String) (x : Cached)
        → Agrees w.env.uuid_string w.db.collectibles key x
        → Agrees w.env.uuid_string (update (has_id id) viewed w.db.collectibles) key x
    seen key (item c) (at, x, found, status) = (
      at,
      (if has_id id x then viewed x else x),
      find-update (has_id c.id) (has_id id) viewed (λ y. refl) w.db.collectibles x found,
      same (has_id id x) ∙ status,
    )
      where
        same : (b : Bool) → (if b then viewed x else x).status ≡ x.status
        same true = refl
        same false = refl
    seen key (listing cs n) (status, page, size, at, rows) = (
      status,
      page,
      size,
      at,
      update-IsOnPage (has_id id) viewed w.db.collectibles status cs (λ c x. refl) rows,
    )

    written :
        {d : Database}
        → ◌≡◌ {A = Option (Unit {0} × Database)}
            (some (tt, record w.db { collectibles = update (has_id id) viewed w.db.collectibles }))
            (some (tt, d))
        → update (has_id id) viewed w.db.collectibles ≡ d.collectibles
    written e = ground (arith, e)

-- A call of the collectible service, or a view that is counted in the background.
pub data Request : Type 0 where
  creates : CreateCollectibleRequest → ℕ → Request
  updates : ℕ → UpdateCollectibleRequest → ℕ → Request
  hides : ℕ → String → ℕ → Request
  publishes : ℕ → Request
  shows : ℕ → List String → Request
  lists : String → ℕ → ℕ → List String → Option ℕ → Request
  counts : ℕ → Request

-- The world that it leaves, however it ends.
unfoldable pub run : Request → World → World
run (creates req seller) w = world_of (create_collectible req seller w)
run (updates id req actor) w = world_of (update_collectible id req actor w)
run (hides id reason admin) w = world_of (hide_collectible id reason admin w)
run (publishes id) w = world_of (publish_collectible id w)
run (shows id roles) w = world_of (get_collectible id roles w)
run (lists status page size roles user) w =
    world_of (list_collectibles status page size roles user w)
run (counts id) w = world_of (increment_view_count id w)

after_Keeps : {A : Type 0} (r : Result A) → Ends Keeps Keeps r → IsCoherent (world_of r)
after_Keeps (ok a v) h = h
after_Keeps (err e v) h = h

run-IsCoherent :
    (r : Request) (w : World) → IsInjective w.env.uuid_string → IsCoherent w → IsCoherent (run r w)
unfolding run
run-IsCoherent (creates req seller) w i h = after_Keeps _ (create-Keeps req seller w h)
run-IsCoherent (updates id req actor) w i h = after_Keeps _ (update-Keeps id req actor w h)
run-IsCoherent (hides id reason admin) w i h = after_Keeps _ (hide-Keeps id reason admin w h)
run-IsCoherent (publishes id) w i h = after_Keeps _ (publish-Keeps id w h)
run-IsCoherent (shows id roles) w i h = after_Keeps _ (
    Ends-mono (λ c v. Visible id roles w.db c × IsCoherent v) {R = Keeps} Keeps {F = Keeps}
      (get_collectible id roles w) (λ c v k. k.1) (λ e v k. k)
      (get_collectible-Shows id roles w i h))
run-IsCoherent (lists status page size roles user) w i h = after_Keeps _ (
    Ends-mono (λ r v. All (MaySee roles w.db.collectibles) r.0 × IsCoherent v) {R = Keeps} Keeps
      {F = Keeps} (list_collectibles status page size roles user w) (λ r v k. k.1) (λ e v k. k)
      (list_collectibles-Shows status page size roles user w h))
run-IsCoherent (counts id) w i h = after_Keeps _ (view-Keeps id w h)

-- A history: requests that are served whole, between which the cache is swept, time passes, other
-- tables change and database calls begin or cease to fail. The texts of ids are those of one function
-- `show`.
pub data Reach (show : ℕ → String) : World → Type 0 where
  start : (w : World) → w.env.uuid_string ≡ show → w.cache ≡ [] → Reach show w
  serve : (w : World) (r : Request) → w.env.uuid_string ≡ show → Reach show w → Reach show (run r w)
  sweep : (w : World) → Reach show w → Reach show (record w { cache = cleanup w.now w.cache })
  elapse :
      (w v : World)
      → v.env.uuid_string ≡ w.env.uuid_string
      → v.db.collectibles ≡ w.db.collectibles
      → v.cache ≡ w.cache
      → Reach show w
      → Reach show v

Reach-IsCoherent : {show : ℕ → String} {w : World} → IsInjective show → Reach show w → IsCoherent w
unfolding cleanup
Reach-IsCoherent i (start w e empty) =
    subst (Coherent w.env.uuid_string w.db.collectibles) (sym empty) tt
Reach-IsCoherent i (serve w r e h) =
    run-IsCoherent r w (subst IsInjective (sym e) i) (Reach-IsCoherent i h)
Reach-IsCoherent i (sweep w h) =
    All-select (λ (e : Entry Cached). Agrees w.env.uuid_string w.db.collectibles e.key e.value) _
      w.cache (Reach-IsCoherent i h)
Reach-IsCoherent i (elapse w v e items cache h) =
    subst (λ s. Coherent s v.db.collectibles v.cache) (sym e)
      (subst (λ (xs : List Collectible). Coherent w.env.uuid_string xs v.cache) (sym items)
        (subst (Coherent w.env.uuid_string w.db.collectibles) (sym cache) (Reach-IsCoherent i h)))

-- After any history of requests that are served one at a time, from an empty cache on and whatever
-- calls fail, where different ids have different texts: GetByID shows a collectible only to one who may
-- see it as its row is at that moment, where it is published, or the viewer an administrator or
-- compliance analyst. So does List for each of its page, by a row with its id and status, whatever
-- status is asked for and whatever the cache held before.
pub never_shown_hidden :
    (show : ℕ → String) (w : World) (id : ℕ) (roles : List String) (status : String) (page size : ℕ)
    (user : Option ℕ)
    → IsInjective show
    → w.env.uuid_string ≡ show
    → Reach show w
    → Ends (λ c v. Visible id roles w.db c) (λ e v. Unit) (get_collectible id roles w)
      × Ends
          (λ r v. All (MaySee roles w.db.collectibles) r.0)
          (λ e v. Unit)
          (list_collectibles status page size roles user w)
never_shown_hidden show w id roles status page size user i e r = (
  Ends-mono (λ c v. Visible id roles w.db c × IsCoherent v) {R = λ c v. Visible id roles w.db c}
      Keeps {F = λ e v. Unit} (get_collectible id roles w) (λ c v k. k.0) (λ e v k. tt)
      (get_collectible-Shows id roles w (subst IsInjective (sym e) i) (Reach-IsCoherent i r)),
  Ends-mono (λ p v. All (MaySee roles w.db.collectibles) p.0 × IsCoherent v)
      {R = λ p v. All (MaySee roles w.db.collectibles) p.0} Keeps {F = λ e v. Unit}
      (list_collectibles status page size roles user w) (λ p v k. k.0) (λ e v k. tt)
      (list_collectibles-Shows status page size roles user w (Reach-IsCoherent i r)),
)
