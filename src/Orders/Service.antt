-- ===== src/Orders/Service.antt =====
-- repo/backend/internal/service/order_service.go
use Prim.Native.String
use w1t.Base.{
  ℕ, String, Bool, true, false, not, ◌&&◌, ◌||◌, [], ◌∷◌, Option, none, some, ◌==◌, str_eq,
  if◌then◌else◌,
}
use w1t.Errors.{
  not_found, forbidden, validation, invalid_transition, oversold, Error, sentinel, wrapped,
}
use w1t.Model.Order.{
  OrderStatus, unset, pending, confirmed, processing, completed, cancelled, status_eq,
  can_transition_to, Order, OrderStateTransition, Fulfillment,
}
use w1t.Model.Collectible.{Collectible, published, CollectibleTxHistory}
use w1t.Model.Notification.{Params}
use w1t.World.{World, send_notification}
use w1t.Action.{
  Action, pure, raise, ◌>>=◌, ◌>>◌, catch, in_context, attempt, fail_if, found, reading, spawn,
  transaction,
}
use w1t.Experiments.{emit_event}
use w1t.Orders.Store.{
  get_by_id, get_by_idempotency_key, has_active_order, acquire_advisory_lock, begin_tx, commit,
  create_in_tx, update_status, cancel, update_fulfillment, record_transition,
}
use w1t.Collectibles.Store.{get_by_id as get_collectible, record_tx_history}

-- `s.emitEvent(ctx, &user, "checkout_failed", &collectible)` before an error is returned.
abbrev pub checkout_failed : {A : Type 0} → ℕ → ℕ → Error → Action A
checkout_failed user collectible e =
    emit_event (some user) "checkout_failed" (some collectible) >> raise e

-- A store call of `Create`: a failure is reported as an event and wrapped.
abbrev pub or_checkout_failed : {A : Type 0} → ℕ → ℕ → String → Action A → Action A
or_checkout_failed user collectible context m =
    catch m (λ e. checkout_failed user collectible (wrapped context e))

-- A check of `Create` that reports the refusal as an event.
abbrev pub refuse_if : Bool → ℕ → ℕ → Error → Action (Unit {0})
refuse_if true user collectible e = checkout_failed user collectible e
refuse_if false user collectible e = pure tt

abbrev pub is_published : Collectible → Bool
is_published c = elim c.status [ published ↦ true | _ ↦ false ]

-- The row that `Create` inserts; the id and the times come from the table.
abbrev pub new_order : String → ℕ → Collectible → ℕ → Order
new_order key buyer c collectible_id = record {
  id = 0;
  idempotency_key = key;
  buyer_id = buyer;
  collectible_id = collectible_id;
  seller_id = c.seller_id;
  status = pending;
  price_snapshot_cents = c.price_cents;
  cancellation_reason = "";
  cancelled_by = none;
  fulfillment_tracking = none;
  created_at = 0;
  updated_at = 0;
}

abbrev pub transition_of : ℕ → OrderStatus → OrderStatus → ℕ → String → OrderStateTransition
transition_of order from to actor reason = record {
  order_id = order;
  from_status = from;
  to_status = to;
  actor_id = actor;
  reason = reason;
  created_at = 0;
}

-- The statements of `Create` between `BeginTx` and `Commit`.
unfoldable pub place_order : ℕ → String → Collectible → ℕ → Action Order
place_order collectible_id key c buyer = do
  or_checkout_failed buyer collectible_id "acquire lock" (acquire_advisory_lock collectible_id)
  active ←
      or_checkout_failed buyer collectible_id "check active orders"
        (has_active_order collectible_id)
  refuse_if active buyer collectible_id (sentinel oversold "")
  order ←
      or_checkout_failed buyer collectible_id "create order"
        (create_in_tx (new_order key buyer c collectible_id))
  or_checkout_failed buyer collectible_id "record transition"
      (record_transition (transition_of order.id unset pending buyer "order created"))
  or_checkout_failed buyer collectible_id "commit" commit
  pure order

-- `Create` once no order has the idempotency key.
unfoldable pub create_new : ℕ → ℕ → String → Action Order
create_new collectible_id buyer key = do
  row ← in_context "get collectible" (get_collectible collectible_id)
  c ← catch (found row (sentinel not_found "")) (checkout_failed buyer collectible_id)
  refuse_if (not (is_published c)) buyer collectible_id (sentinel not_found "")
  refuse_if (c.seller_id == buyer) buyer collectible_id
      (sentinel validation "cannot buy your own collectible")
  or_checkout_failed buyer collectible_id "begin tx" begin_tx
  order ← transaction (place_order collectible_id key c buyer)
  emit_event (some buyer) "order_created" (some collectible_id)
  pure order

abbrev pub unless_existing : Option Order → Action Order → Action Order
unless_existing (some o) m = pure o
unless_existing none m = m

-- `Create`
unfoldable pub create : ℕ → ℕ → String → Action Order
create collectible_id buyer key = do
  existing ←
      or_checkout_failed buyer collectible_id "check idempotency" (get_by_idempotency_key buyer key)
  unless_existing existing (create_new collectible_id buyer key)

abbrev pub is_party : Order → ℕ → Bool
is_party o actor = o.buyer_id == actor || o.seller_id == actor

-- The first lines of the methods below: read the order, or `ErrNotFound`.
unfoldable pub get_order : ℕ → Action Order
get_order id = do row ← get_by_id id; found row (sentinel not_found "")

-- `GetByID`
unfoldable pub get : ℕ → ℕ → Action Order
get id actor = do o ← get_order id; fail_if (not (is_party o actor)) (sentinel forbidden ""); pure o

-- The `switch` of `TransitionStatus`.
unfoldable pub may_request : OrderStatus → Order → ℕ → Bool
may_request confirmed o actor = o.seller_id == actor
may_request processing o actor = o.seller_id == actor
may_request completed o actor = o.seller_id == actor
may_request cancelled o actor = is_party o actor
may_request _ o actor = true

-- The message of a refusal by the `switch`.
abbrev pub denial : OrderStatus → String
denial cancelled = "only the buyer or seller of this order can cancel it"
denial _ = "only the seller of this order can perform this action"

-- The text of a status, and `"cannot transition from %s to %s"`.
abbrev pub status_text : OrderStatus → String
status_text unset = ""
status_text pending = "pending"
status_text confirmed = "confirmed"
status_text processing = "processing"
status_text completed = "completed"
status_text cancelled = "cancelled"

abbrev pub no_transition : OrderStatus → OrderStatus → String
no_transition from to =
    String.◌++◌ "cannot transition from "
      (String.◌++◌ (status_text from) (String.◌++◌ " to " (status_text to)))

-- `statusEventMap`
abbrev pub status_event : OrderStatus → Option String
status_event confirmed = some "order_confirmed"
status_event completed = some "order_completed"
status_event _ = none

-- `slugMap` of `sendOrderNotification`
abbrev pub status_slug : OrderStatus → Option String
status_slug confirmed = some "order_confirmed"
status_slug processing = some "order_processing"
status_slug completed = some "order_completed"
status_slug cancelled = some "order_cancelled"
status_slug _ = none

abbrev pub emit_if_some : Option String → ℕ → ℕ → Action (Unit {0})
emit_if_some none user collectible = pure tt
emit_if_some (some event) user collectible = emit_event (some user) event (some collectible)

-- `if s.notifService == nil { return }`, then the goroutine that calls `Send`.
abbrev pub notify_if : Bool → ℕ → String → Params → Action (Unit {0})
notify_if false user slug params = pure tt
notify_if true user slug params = spawn (send_notification user slug params)

unfoldable pub notify : ℕ → String → (World → Params) → Action (Unit {0})
notify user slug params = reading (λ w. notify_if w.env.has_notifications user slug (params w))

abbrev pub order_params : Order → String → World → Params
order_params o reason w = ("OrderID", w.env.uuid_string o.id) ∷ ("Reason", reason) ∷ []

abbrev pub notify_slug : Option String → Order → String → Action (Unit {0})
notify_slug none o reason = pure tt
notify_slug (some slug) o reason = notify o.buyer_id slug (order_params o reason)

-- `sendOrderNotification`
unfoldable pub send_order_notification : Order → OrderStatus → String → Action (Unit {0})
send_order_notification o s reason = notify_slug (status_slug s) o reason

abbrev pub transfer_entry : Order → Collectible → World → CollectibleTxHistory
transfer_entry o c w = record {
  collectible_id = o.collectible_id;
  tx_hash = String.◌++◌ "order:" (w.env.uuid_string o.id);
  from_address =
      if str_eq c.contract_address "" then w.env.uuid_string o.seller_id else c.contract_address;
  to_address = w.env.uuid_string o.buyer_id;
  block_number = o.price_snapshot_cents;
  timestamp = w.now;
}

unfoldable pub record_transfer_of : Order → Option Collectible → Action (Unit {0})
record_transfer_of o none = pure tt
record_transfer_of o (some c) = reading (λ w. attempt (record_tx_history (transfer_entry o c w)))

-- `recordOwnershipTransfer`
unfoldable pub record_ownership_transfer : Order → Action (Unit {0})
record_ownership_transfer o = do
  row ← catch (get_collectible o.collectible_id) (λ e. pure none)
  record_transfer_of o row

-- The write of `TransitionStatus`: `Cancel` or `UpdateStatus`, and the event of the new status.
-- A cancellation is tagged with the actor, the other events with the buyer.
unfoldable pub write_status : Order → OrderStatus → ℕ → String → Action (Unit {0})
write_status o cancelled actor reason = do
  or_checkout_failed actor o.collectible_id "cancel order" (cancel o.id reason actor)
  emit_event (some actor) "order_cancelled" (some o.collectible_id)
write_status o target actor reason = do
  or_checkout_failed actor o.collectible_id "update status" (update_status o.id target)
  emit_if_some (status_event target) o.buyer_id o.collectible_id

abbrev pub transfer_if_completed : OrderStatus → Order → Action (Unit {0})
transfer_if_completed completed o = record_ownership_transfer o
transfer_if_completed _ o = pure tt

-- `TransitionStatus` after the order has been read.
unfoldable pub transition_read : Order → OrderStatus → ℕ → String → Action Order
transition_read o target actor reason = do
  fail_if (not (may_request target o actor)) (sentinel forbidden (denial target))
  refuse_if (not (can_transition_to o.status target)) actor o.collectible_id
      (sentinel invalid_transition (no_transition o.status target))
  write_status o target actor reason
  in_context "record transition"
      (record_transition (transition_of o.id o.status target actor reason))
  transfer_if_completed target o
  send_order_notification o target reason
  pure (record o { status = target })

-- `TransitionStatus`
unfoldable pub transition_status : ℕ → OrderStatus → ℕ → String → Action Order
transition_status id target actor reason = do
  o ← get_order id
  transition_read o target actor reason

-- `ApproveRefund`, with `sendRefundNotification`
unfoldable pub approve_refund : ℕ → ℕ → String → Action Order
approve_refund id actor reason = do
  o ← get_order id
  fail_if (not (o.seller_id == actor))
      (sentinel forbidden "only the seller of this order can approve a refund")
  fail_if (not (status_eq o.status completed) && not (status_eq o.status cancelled))
      (sentinel validation "refunds can only be approved on completed or cancelled orders")
  emit_event (some actor) "refund_approved" (some o.collectible_id)
  notify o.buyer_id "refund_approved" (order_params o reason)
  pure o

-- `OpenArbitration`, with `sendArbitrationNotification`
unfoldable pub open_arbitration : ℕ → ℕ → Action Order
open_arbitration id actor = do
  o ← get_order id
  fail_if (not (is_party o actor))
      (sentinel forbidden "only the buyer or seller of this order can open arbitration")
  emit_event (some actor) "arbitration_opened" (some o.collectible_id)
  notify o.buyer_id "arbitration_opened" (λ w. ("OrderID", w.env.uuid_string o.id) ∷ [])
  pure o

-- `UpdateFulfillment`
unfoldable pub fulfill : ℕ → Fulfillment → ℕ → Action (Unit {0})
fulfill id tracking actor = do
  o ← get_order id
  fail_if (not (o.seller_id == actor))
      (sentinel forbidden "only the seller of this order can update fulfillment")
  update_fulfillment id tracking
