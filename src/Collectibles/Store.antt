-- ===== src/Collectibles/Store.antt =====
-- repo/backend/internal/store/collectible_store.go: each method is its SQL statement.
pub mod Rules
use w1t.Base.{
  ℕ, suc, String, Bool, true, false, not, ◌&&◌, ◌||◌, List, [], ◌∷◌, ◌++◌, map, Option, none, some,
  ◌==◌, str_eq, find, exists, count, select, update, page_of, if◌then◌else◌,
}
use w1t.Model.Collectible.{Collectible, CollectibleStatus, published, hidden, CollectibleTxHistory}
use w1t.World.{Database}
use w1t.Action.{Action, query}

abbrev pub has_id : ℕ → Collectible → Bool
has_id id c = c.id == id

-- `GetByID`
unfoldable pub get_by_id : ℕ → Action (Option Collectible)
get_by_id id = query (λ now d. some (find (has_id id) d.collectibles, d))

-- `RecordTxHistory`
unfoldable pub record_tx_history : CollectibleTxHistory → Action (Unit {0})
record_tx_history h = query (λ now d. some (tt, record d { tx_history = d.tx_history ++ (h ∷ []) }))

abbrev pub status_text : CollectibleStatus → String
status_text published = "published"
status_text hidden = "hidden"

-- `$1 = '' OR status = $1`
abbrev pub is_listed : String → Collectible → Bool
is_listed status c = str_eq status "" || str_eq (status_text c.status) status

-- The lists do not select who hid a collectible, and why.
abbrev pub summary : Collectible → Collectible
summary c = record c { hidden_by = none; hidden_reason = "" }

-- `List`: the number of rows is asked before the page is.
unfoldable pub count_listed : String → Action ℕ
count_listed status = query (λ now d. some (count (is_listed status) d.collectibles, d))

unfoldable pub list : String → ℕ → ℕ → Action (List Collectible)
list status page page_size = query (λ now d.
    some (map summary (page_of page page_size (select (is_listed status) d.collectibles)), d))

abbrev pub is_sold_by : ℕ → Collectible → Bool
is_sold_by seller c = c.seller_id == seller

-- `ListBySeller`
unfoldable pub count_all_by_seller : ℕ → Action ℕ
count_all_by_seller seller = query (λ now d. some (count (is_sold_by seller) d.collectibles, d))

unfoldable pub list_by_seller : ℕ → ℕ → ℕ → Action (List Collectible)
list_by_seller seller page page_size = query (λ now d.
    some (map summary (page_of page page_size (select (is_sold_by seller) d.collectibles)), d))

-- The index `idx_collectibles_identity` covers rows with a contract address.
abbrev pub has_identity : Collectible → Collectible → Bool
has_identity c x =
    not (str_eq x.contract_address "")
    && (str_eq x.contract_address c.contract_address
        && (x.chain_id == c.chain_id && str_eq x.token_id c.token_id))

abbrev pub insert_collectible : Collectible → ℕ → Database → Option (Collectible × Database)
insert_collectible c now d =
    let row : Collectible = record c {
      id = d.next_id;
      status = published;
      hidden_by = none;
      hidden_reason = "";
      view_count = 0;
      created_at = now;
      updated_at = now;
    } in
    if exists (has_identity c) d.collectibles
    then none
    else some
        (row, record d { next_id = suc d.next_id; collectibles = d.collectibles ++ (row ∷ []) })

-- `Create`
unfoldable pub create : Collectible → Action Collectible
create c = query (insert_collectible c)

-- `UPDATE collectibles SET … WHERE id = $1`
abbrev pub update_collectible : ℕ → (ℕ → Collectible → Collectible) → Action (Unit {0})
update_collectible id f =
    query
      (λ now d. some (tt, record d { collectibles = update (has_id id) (f now) d.collectibles }))

abbrev pub set_details : Collectible → ℕ → Collectible → Collectible
set_details c now x = record x {
  title = c.title;
  description = c.description;
  price_cents = c.price_cents;
  image_url = c.image_url;
  metadata_uri = c.metadata_uri;
  updated_at = now;
}

-- `Update`
unfoldable pub save : Collectible → Action (Unit {0})
save c = update_collectible c.id (set_details c)

abbrev pub set_hidden : ℕ → String → ℕ → Collectible → Collectible
set_hidden by reason now x = record x {
  status = hidden;
  hidden_by = some by;
  hidden_reason = reason;
  updated_at = now;
}

-- `Hide`
unfoldable pub hide : ℕ → ℕ → String → Action (Unit {0})
hide id by reason = update_collectible id (set_hidden by reason)

abbrev pub set_published : ℕ → Collectible → Collectible
set_published now x = record x {
  status = published;
  hidden_by = none;
  hidden_reason = "";
  updated_at = now;
}

-- `Publish`
unfoldable pub publish : ℕ → Action (Unit {0})
publish id = update_collectible id set_published

-- `IncrementViewCount`
unfoldable pub increment_view_count : ℕ → Action (Unit {0})
increment_view_count id =
    update_collectible id (λ now x. record x { view_count = suc x.view_count })

abbrev pub is_shown : Collectible → Bool
is_shown c = elim c.status [ published ↦ true | hidden ↦ false ]

-- `CountBySeller`
unfoldable pub count_by_seller : ℕ → Action ℕ
count_by_seller seller =
    query (λ now d. some (count (λ c. is_sold_by seller c && is_shown c) d.collectibles, d))
