-- ===== src/Collectibles/Coherence.antt =====
-- The cache of collectibles agrees with the table on who may see them.
use w1t.Base.{
  ℕ, String, Bool, true, false, not, ◌≡◌, refl, sym, ap, subst, List, [], ◌∷◌, Option, none, some,
  arith, find, find_holds, exists, ◌==◌, ◌&&◌, select, starts_with, starts_with-append, str_eq,
  str_eq_iff, All, All-find, if◌then◌else◌,
}
use w1t.Base.Keyed.{All-select}
use w1t.Model.Collectible.{Collectible}
use w1t.Cache.{Entry, HotCache, is_at, get, set, delete, delete_prefix, value_at}
use w1t.World.{World, Database, Cached, item, listing}
use w1t.Action.Frame.{Frame}
use w1t.Collectibles.Store.{has_id, is_listed, status_text}
use w1t.Collectibles.Service.{item_key, list_key}

-- The table has a row with the id and the status of the collectible.
abbrev pub is_row_of : Collectible → Collectible → Bool
is_row_of c x = x.id == c.id && str_eq (status_text x.status) (status_text c.status)

abbrev pub HasRow : List Collectible → Collectible → Type 0
HasRow items c = exists (is_row_of c) items ≡ true

-- A collectible on a page that was asked for with the status.
abbrev pub IsOnPage : List Collectible → String → Collectible → Type 0
IsOnPage items status c = (is_listed status c ≡ true) × HasRow items c

-- What a cached value says is so in the table: an item stands under the key of its id, and has the
-- status of the row; a page stands under the key of its status, and has rows with that status.
abbrev pub Agrees : (ℕ → String) → List Collectible → String → Cached → Type 0
Agrees uuid items key (item c) =
    (key ≡ item_key (uuid c.id))
    × (x : Collectible) × (find (has_id c.id) items ≡ some x)
    × (x.status ≡ c.status)
Agrees uuid items key (listing cs total) =
    (status : String) × (page : ℕ) × (size : ℕ) × (key ≡ list_key status page size)
    × All (IsOnPage items status) cs

abbrev pub Coherent : (ℕ → String) → List Collectible → HotCache Cached → Type 0
Coherent uuid items = All (λ e. Agrees uuid items e.key e.value)

abbrev pub IsCoherent : World → Type 0
IsCoherent w = Coherent w.env.uuid_string w.db.collectibles w.cache

-- The cache agreed with the table as it was some time ago.
abbrev pub IsStale : World → Type 0
IsStale w = (items : List Collectible) × Coherent w.env.uuid_string items w.cache

pub Frame-IsCoherent : (w v : World) → Frame w v → IsCoherent w → IsCoherent v
Frame-IsCoherent w v f h =
    subst (λ e. Coherent e.uuid_string v.db.collectibles v.cache) (sym f.env)
      (subst (λ (d : Database). Coherent w.env.uuid_string d.collectibles v.cache) (sym f.db)
        (subst (Coherent w.env.uuid_string w.db.collectibles) (sym f.cache) h))

literal_begins : starts_with "collectible" "collectible:" ≡ true
unfolding starts_with str_eq
literal_begins = refl

has_item_prefix : (s : String) → starts_with "collectible" (item_key s) ≡ true
has_item_prefix s = starts_with-append "collectible" "collectible:" s literal_begins

page_literal_begins : starts_with "collectible" "collectibles:" ≡ true
unfolding starts_with str_eq
page_literal_begins = refl

has_page_prefix :
    (status : String) (page size : ℕ) → starts_with "collectible" (list_key status page size) ≡ true
has_page_prefix status page size =
    starts_with-append "collectible" "collectibles:" _ page_literal_begins

-- Without the entries of collectibles, the cache agrees with any table.
pub delete_prefix-Coherent :
    (uuid : ℕ → String) (old items : List Collectible) (c : HotCache Cached)
    → Coherent uuid old c
    → Coherent uuid items (delete_prefix "collectible" c)
unfolding delete_prefix
delete_prefix-Coherent uuid old items [] h = tt
delete_prefix-Coherent uuid old items (e ∷ c) h =
    by_test (not (starts_with "collectible" e.key)) refl e.value h.0
      (delete_prefix-Coherent uuid old items c h.1)
  where
    kept : HotCache Cached
    kept = select (λ x. not (starts_with "collectible" x.key)) c

    by_test :
        (b : Bool)
        → not (starts_with "collectible" e.key) ≡ b
        → (x : Cached) → Agrees uuid old e.key x
        → Coherent uuid items kept
        → Coherent uuid items (if b then record e { value = x } ∷ kept else kept)
    by_test true other (item y) agrees rest = absurd (
        ground (arith, other, ap (starts_with "collectible") agrees.0, has_item_prefix (uuid y.id)))
    by_test true other (listing cs n) (status, page, size, at, rows) rest =
        absurd (
          ground
            (arith, other, ap (starts_with "collectible") at, has_page_prefix status page size))
    by_test false other x agrees rest = rest

pub set-Coherent :
    (uuid : ℕ → String) (items : List Collectible) (key : String) (x : Cached) (ttl now : ℕ)
    (c : HotCache Cached)
    → Agrees uuid items key x
    → Coherent uuid items c
    → Coherent uuid items (set key x ttl now c)
unfolding set delete
set-Coherent uuid items key x ttl now c agrees h =
    (agrees, All-select (λ e. Agrees uuid items e.key e.value) (λ e. not (is_at key e)) c h)

-- What is got from a coherent cache agrees with the table.
pub get-Agrees :
    (uuid : ℕ → String) (items : List Collectible) (key : String) (now : ℕ) (c : HotCache Cached)
    (x : Cached)
    → Coherent uuid items c
    → get key now c ≡ some x
    → Agrees uuid items key x
unfolding get
get-Agrees uuid items key now c x h found = by_entry (find (is_at key) c) refl found
  where
    by_entry :
        (o : Option (Entry Cached))
        → find (is_at key) c ≡ o
        → value_at now o ≡ some x
        → Agrees uuid items key x
    by_entry none e v = cc
    by_entry (some y) e v =
        let at_key : y.key ≡ key = (str_eq_iff y.key key).0 (find_holds (is_at key) c e) in
        let value : y.value ≡ x = ground (arith, v) in
        subst (Agrees uuid items key) value (
          subst (λ k. Agrees uuid items k y.value) at_key
            (All-find (λ (z : Entry Cached). Agrees uuid items z.key z.value) (is_at key) c h e))
