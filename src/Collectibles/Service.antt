-- ===== src/Collectibles/Service.antt =====
-- repo/backend/internal/service/collectible_service.go
use Prim.Native.String
use w1t.Base.{
  ℕ, suc, String, Bool, true, false, not, ◌&&◌, ◌||◌, List, [], ◌∷◌, Option, none, some, ◌==◌,
  str_eq, decimal, if◌then◌else◌,
}
use w1t.Errors.{
  Error, sentinel, store, wrapped, plain, duplicate_key, not_found, forbidden, validation, conflict,
}
use w1t.Model.Collectible.{Collectible, published, hidden}
use w1t.Cache.{get as cache_get, set as cache_set, delete_prefix}
use w1t.World.{Cached, item, listing, send_notification, increment_view_count}
use w1t.Action.{
  ok, Action, pure, raise, ◌>>=◌, ◌>>◌, catch, in_context, fail_if, found, reading, spawn,
}
use w1t.Experiments.{emit_event}
use w1t.Collectibles.Store.{
  get_by_id, create, save, hide, publish, count_listed, list, count_all_by_seller, list_by_seller,
}

-- `dto.CreateCollectibleRequest`
pub record CreateCollectibleRequest : Type 0 where
  pub title : String
  pub description : String
  pub contract_address : String
  pub chain_id : ℕ
  pub token_id : String
  pub metadata_uri : String
  pub image_url : String
  pub price_cents : ℕ
  pub currency : String

-- `dto.UpdateCollectibleRequest`
pub record UpdateCollectibleRequest : Type 0 where
  pub title : Option String
  pub description : Option String
  pub price_cents : Option ℕ
  pub image_url : Option String
  pub metadata_uri : Option String

abbrev pub has_token : CreateCollectibleRequest → Bool
has_token req = not (str_eq req.token_id "")

abbrev pub has_chain : CreateCollectibleRequest → Bool
has_chain req = not (req.chain_id == 0)

abbrev pub has_contract : CreateCollectibleRequest → Bool
has_contract req = not (str_eq req.contract_address "")

-- `validateCollectibleIdentity`
abbrev pub validate_collectible_identity : CreateCollectibleRequest → Option Error
validate_collectible_identity req =
    if has_contract req
    then if not (has_token req) || not (has_chain req)
      then some (sentinel validation "contract_address requires chain_id and token_id")
      else none
    else if has_token req || has_chain req
    then if not (has_token req) || not (has_chain req)
      then some
          (sentinel validation "chain_id and token_id must both be provided when either is set")
      else none
    else none

abbrev pub refuse : Option Error → Action (Unit {0})
refuse none = pure tt
refuse (some e) = raise e

-- `uuid.New().String()`
abbrev pub new_token_id : Action String
new_token_id w =
    ok (w.env.uuid_string w.db.next_id)
      (record w { db = record w.db { next_id = suc w.db.next_id } })

-- The token and the chain, with the defaults of items off the chain.
abbrev pub identity_of : CreateCollectibleRequest → Action (String × ℕ)
identity_of req =
    if not (has_contract req) && (not (has_token req) && not (has_chain req))
    then new_token_id >>= (λ token. pure (token, 1))
    else pure (req.token_id, req.chain_id)

abbrev pub new_collectible : CreateCollectibleRequest → ℕ → String → ℕ → Collectible
new_collectible req seller token chain = record {
  id = 0;
  seller_id = seller;
  title = req.title;
  description = req.description;
  contract_address = req.contract_address;
  chain_id = chain;
  token_id = token;
  metadata_uri = req.metadata_uri;
  image_url = req.image_url;
  price_cents = req.price_cents;
  currency = if str_eq req.currency "" then "USD" else req.currency;
  status = published;
  hidden_by = none;
  hidden_reason = "";
  view_count = 0;
  created_at = 0;
  updated_at = 0;
}

-- `strings.Contains(err.Error(), "duplicate key")`
abbrev pub is_duplicate : Error → Bool
is_duplicate (store duplicate_key) = true
is_duplicate _ = false

abbrev pub create_failed : Error → Error
create_failed e =
    if is_duplicate e
    then sentinel conflict
        "a collectible with this contract_address, chain_id, and token_id already exists"
    else wrapped "create collectible" e

-- `invalidateCache`
unfoldable pub invalidate_cache : Action (Unit {0})
invalidate_cache w = ok tt (record w { cache = delete_prefix "collectible" w.cache })

-- `Create`
unfoldable pub create_collectible : CreateCollectibleRequest → ℕ → Action Collectible
create_collectible req seller = do
  refuse (validate_collectible_identity req)
  identity ← identity_of req
  c ←
      catch (create (new_collectible req seller identity.0 identity.1))
        (λ e. raise (create_failed e))
  invalidate_cache
  pure c

-- `hasAdminOrCompliance`
abbrev pub has_admin_or_compliance : List String → Bool
has_admin_or_compliance [] = false
has_admin_or_compliance (r ∷ rs) =
    if str_eq r "administrator" || str_eq r "compliance_analyst"
    then true
    else has_admin_or_compliance rs

abbrev pub is_hidden : Collectible → Bool
is_hidden c = elim c.status [ published ↦ false | hidden ↦ true ]

-- `c.Status == "hidden" && !hasAdminOrCompliance(viewerRoles)`
abbrev pub is_withheld : List String → Collectible → Bool
is_withheld roles c = is_hidden c && not (has_admin_or_compliance roles)

abbrev pub item_key : String → String
item_key id = String.◌++◌ "collectible:" id

unfoldable pub store_in_cache : String → Cached → ℕ → Action (Unit {0})
store_in_cache key value ttl w = ok tt (record w { cache = cache_set key value ttl w.now w.cache })

-- `GetByID` of a collectible that is not in the cache.
unfoldable pub read_collectible : ℕ → List String → Action Collectible
read_collectible id roles = do
  row ← get_by_id id
  c ← found row (sentinel not_found "")
  fail_if (is_withheld roles c) (sentinel not_found "")
  reading (λ w. store_in_cache (item_key (w.env.uuid_string id)) (item c) 120)
  spawn (increment_view_count id)
  pure c

-- The type assertion on a page panics; no page has a key of this form.
abbrev pub show_cached : Option Cached → ℕ → List String → Action Collectible
show_cached none id roles = read_collectible id roles
show_cached (some (item c)) id roles =
    fail_if (is_withheld roles c) (sentinel not_found "") >> pure c
show_cached (some (listing cs total)) id roles = raise (plain "interface conversion")

-- `GetByID`
unfoldable pub get_collectible : ℕ → List String → Action Collectible
get_collectible id roles =
    reading (λ w. show_cached (cache_get (item_key (w.env.uuid_string id)) w.now w.cache) id roles)

-- `EmitViewEvent`
abbrev pub emit_view_event : Option ℕ → ℕ → Action (Unit {0})
emit_view_event user collectible = emit_event user "item_view" (some collectible)

-- `fmt.Sprintf("collectibles:%s:%d:%d", status, page, pageSize)`
abbrev pub list_key : String → ℕ → ℕ → String
list_key status page page_size = String.◌++◌ "collectibles:" (
    String.◌++◌ status
      (String.◌++◌ ":" (String.◌++◌ (decimal page) (String.◌++◌ ":" (decimal page_size)))))

abbrev pub visible_status : List String → String → String
visible_status roles status = if has_admin_or_compliance roles then status else "published"

-- `List` of a page that is not in the cache.
unfoldable pub read_page : String → ℕ → ℕ → Option ℕ → Action (List Collectible × ℕ)
read_page status page page_size user = do
  total ← count_listed status
  items ← list status page page_size
  store_in_cache (list_key status page page_size) (listing items total) 30
  emit_event user "catalog_view" none
  pure (items, total)

abbrev pub show_page : Option Cached → String → ℕ → ℕ → Option ℕ → Action (List Collectible × ℕ)
show_page none status page page_size user = read_page status page page_size user
show_page (some (listing items total)) status page page_size user = pure (items, total)
show_page (some (item c)) status page page_size user = raise (plain "interface conversion")

-- `List`
unfoldable pub list_collectibles :
    String → ℕ → ℕ → List String → Option ℕ → Action (List Collectible × ℕ)
list_collectibles status page page_size roles user = reading (λ w.
    show_page (cache_get (list_key (visible_status roles status) page page_size) w.now w.cache)
      (visible_status roles status) page page_size user)

-- `ListBySeller`
unfoldable pub list_of_seller : ℕ → ℕ → ℕ → Action (List Collectible × ℕ)
list_of_seller seller page page_size = do
  total ← count_all_by_seller seller
  items ← list_by_seller seller page page_size
  pure (items, total)

abbrev pub or_else : {A : Type 0} → Option A → A → A
or_else none a = a
or_else (some b) a = b

abbrev pub edited : Collectible → UpdateCollectibleRequest → Collectible
edited c req = record c {
  title = or_else req.title c.title;
  description = or_else req.description c.description;
  price_cents = or_else req.price_cents c.price_cents;
  image_url = or_else req.image_url c.image_url;
  metadata_uri = or_else req.metadata_uri c.metadata_uri;
}

-- The first lines of the methods below.
unfoldable pub existing : ℕ → Action Collectible
existing id = do row ← get_by_id id; found row (sentinel not_found "")

-- `Update`
unfoldable pub update_collectible : ℕ → UpdateCollectibleRequest → ℕ → Action Collectible
update_collectible id req actor = do
  c ← existing id
  fail_if (not (c.seller_id == actor)) (sentinel forbidden "")
  in_context "update collectible" (save (edited c req))
  invalidate_cache
  pure (edited c req)

-- `Hide`
unfoldable pub hide_collectible : ℕ → String → ℕ → Action (Unit {0})
hide_collectible id reason admin = do _ ← existing id; hide id admin reason; invalidate_cache

-- `Publish`
unfoldable pub publish_collectible : ℕ → Action (Unit {0})
publish_collectible id = do _ ← existing id; publish id; invalidate_cache

-- `sendReviewNotification`
abbrev pub send_review_notification : Bool → Collectible → Action (Unit {0})
send_review_notification false c = pure tt
send_review_notification true c =
    spawn (send_notification c.seller_id "review_posted" (("CollectibleTitle", c.title) ∷ []))

-- `PostReview`; the rating and the text of the review are not stored.
unfoldable pub post_review : ℕ → ℕ → ℕ → String → Action (Unit {0})
post_review id reviewer rating body = do
  row ← in_context "get collectible" (get_by_id id)
  c ← found row (sentinel not_found "")
  emit_event (some reviewer) "review_posted" (some id)
  reading (λ w. send_review_notification w.env.has_notifications c)
