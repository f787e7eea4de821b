-- ===== src/Orders/Store.antt =====
-- repo/backend/internal/store/order_store.go: each method is its SQL statement on the tables.
-- `AcquireAdvisoryLock` matters only between requests; it stands here as a call that can fail.
pub mod Rules
use w1t.Base.{
  ℕ, suc, ◌+◌, ◌*◌, String, Bool, true, false, ◌&&◌, ◌||◌, List, [], ◌∷◌, ◌++◌, Option, none, some,
  ltb, ◌==◌, str_eq, find, exists, count, update, if◌then◌else◌,
}
use w1t.Model.Order.{
  OrderStatus, pending, confirmed, processing, completed, cancelled, status_eq, Order,
  OrderStateTransition, Fulfillment,
}
use w1t.World.{Database}
use w1t.Action.{Action, query}

abbrev pub has_id : ℕ → Order → Bool
has_id id o = o.id == id

-- `GetByID`; no row is `nil, nil`.
unfoldable pub get_by_id : ℕ → Action (Option Order)
get_by_id id = query (λ now d. some (find (has_id id) d.orders, d))

abbrev pub has_key : ℕ → String → Order → Bool
has_key buyer key o = o.buyer_id == buyer && str_eq o.idempotency_key key

-- `GetByIdempotencyKey`
unfoldable pub get_by_idempotency_key : ℕ → String → Action (Option Order)
get_by_idempotency_key buyer key = query (λ now d. some (find (has_key buyer key) d.orders, d))

-- `status NOT IN ('cancelled', 'completed')`
abbrev pub is_active : OrderStatus → Bool
is_active cancelled = false
is_active completed = false
is_active _ = true

abbrev pub is_active_for : ℕ → Order → Bool
is_active_for collectible o = o.collectible_id == collectible && is_active o.status

-- `HasActiveOrder`
unfoldable pub has_active_order : ℕ → Action Bool
has_active_order collectible =
    query (λ now d. some (exists (is_active_for collectible) d.orders, d))

-- `AcquireAdvisoryLock`
unfoldable pub acquire_advisory_lock : ℕ → Action (Unit {0})
acquire_advisory_lock collectible = query (λ now d. some (tt, d))

-- `BeginTx` and `tx.Commit`
unfoldable pub begin_tx : Action (Unit {0})
begin_tx = query (λ now d. some (tt, d))

unfoldable pub commit : Action (Unit {0})
commit = query (λ now d. some (tt, d))

-- `CreateInTx`: the row gets its id and times, and the pair of buyer and key is unique.
abbrev pub insert_order : Order → ℕ → Database → Option (Order × Database)
insert_order o now d =
    let row : Order = record o { id = d.next_id; created_at = now; updated_at = now } in
    if exists (has_key o.buyer_id o.idempotency_key) d.orders
    then none
    else some (row, record d { next_id = suc d.next_id; orders = d.orders ++ (row ∷ []) })

unfoldable pub create_in_tx : Order → Action Order
create_in_tx o = query (insert_order o)

abbrev pub set_status : OrderStatus → ℕ → Order → Order
set_status s now o = record o { status = s; updated_at = now }

-- `UpdateStatus`
unfoldable pub update_status : ℕ → OrderStatus → Action (Unit {0})
update_status id s =
    query (λ now d. some (tt, record d { orders = update (has_id id) (set_status s now) d.orders }))

abbrev pub set_cancelled : String → ℕ → ℕ → Order → Order
set_cancelled reason by now o = record o {
  status = cancelled;
  cancellation_reason = reason;
  cancelled_by = some by;
  updated_at = now;
}

-- `Cancel`
unfoldable pub cancel : ℕ → String → ℕ → Action (Unit {0})
cancel id reason by = query (λ now d.
    some (tt, record d { orders = update (has_id id) (set_cancelled reason by now) d.orders }))

abbrev pub set_fulfillment : Fulfillment → ℕ → Order → Order
set_fulfillment tracking now o = record o { fulfillment_tracking = some tracking; updated_at = now }

-- `UpdateFulfillment`
unfoldable pub update_fulfillment : ℕ → Fulfillment → Action (Unit {0})
update_fulfillment id tracking = query (λ now d.
    some (tt, record d { orders = update (has_id id) (set_fulfillment tracking now) d.orders }))

-- `RecordTransition`, and `RecordTransitionInTx` within a transaction.
unfoldable pub record_transition : OrderStateTransition → Action (Unit {0})
record_transition t = query (λ now d.
    some (tt, record d { transitions = d.transitions ++ (record t { created_at = now } ∷ []) }))

-- `CountOpenByBuyer`, `CountOpenBySeller`, `CountCompletedByBuyer`
unfoldable pub count_open_by_buyer : ℕ → Action ℕ
count_open_by_buyer buyer =
    query (λ now d. some (count (λ o. o.buyer_id == buyer && is_active o.status) d.orders, d))

unfoldable pub count_open_by_seller : ℕ → Action ℕ
count_open_by_seller seller =
    query (λ now d. some (count (λ o. o.seller_id == seller && is_active o.status) d.orders, d))

unfoldable pub count_completed_by_buyer : ℕ → Action ℕ
count_completed_by_buyer buyer =
    query
      (λ now d. some (count (λ o. o.buyer_id == buyer && status_eq o.status completed) d.orders, d))

abbrev pub cancelled_in_period : ℕ → ℕ → ℕ → Database → ℕ
cancelled_in_period user hours now d =
    count
      (λ o.
        (o.buyer_id == user || o.seller_id == user)
        && status_eq o.status cancelled
        && ltb now (o.updated_at + hours * 3600))
      d.orders

-- `CountCancelledInPeriod`; `updated_at > NOW() - hours` with the hours on the other side.
unfoldable pub count_cancelled_in_period : ℕ → ℕ → Action ℕ
count_cancelled_in_period user hours =
    query (λ now d. some (cancelled_in_period user hours now d, d))

abbrev with_count : OrderStatus → Database → List (OrderStatus × ℕ) → List (OrderStatus × ℕ)
with_count s d rest =
    let n : ℕ = count (λ o. status_eq o.status s) d.orders in
    if ltb 0 n then (s, n) ∷ rest else rest

-- `CountByStatus`: a status that no order has is not in the map.
unfoldable pub count_by_status : Action (List (OrderStatus × ℕ))
count_by_status = query (λ now d. some (
  with_count pending d (
      with_count confirmed d
        (with_count processing d (with_count completed d (with_count cancelled d [])))),
  d,
))
