-- ===== src/Orders/StepVerdict.antt =====
-- When `OrderService.TransitionStatus` accepts and when it refuses, where no database call fails.
use w1t.Base.{
  ℕ, String, Bool, true, false, not, ◌≡◌, refl, sym, subst, Option, none, some, arith, find,
  if◌then◌else◌,
}
use w1t.Errors.{Error, Sentinel, sentinel, wrapped, not_found, forbidden, invalid_transition}
use w1t.Model.Order.{Order, OrderStatus, completed, cancelled, can_transition_to}
use w1t.Model.Collectible.{Collectible}
use w1t.Model.Notification.{Params}
use w1t.World.{World}
use w1t.Action.{Result, err, Action, proceed, recover, found, fail_if, spawn}
use w1t.Action.Rules.{Same, Ends-mono}
use w1t.Action.Calm.{
  IsCalm, Never, Serves, query_calm, read_calm, proceed_ok, proceed-Serves, recover_ok, Serves-mono,
}
use w1t.Experiments.Rules.{emit_event-Serves}
use w1t.Collectibles.Store.{
  has_id as has_collectible_id, get_by_id as get_collectible, record_tx_history,
}
use w1t.Orders.Store.{has_id, get_by_id, cancel, update_status, record_transition}
use w1t.Orders.Refusals.{Verdict, errors_is_self, refuse_if-cases}
use w1t.Orders.Service.{
  checkout_failed, may_request, get_order, transition_read, transition_status, write_status,
  transfer_if_completed, record_ownership_transfer, record_transfer_of, send_order_notification,
  status_slug, status_event, notify, notify_if, notify_slug, order_params, emit_if_some,
}

-- The reason to refuse a step, read off the order.
abbrev pub step_refusal : Option Order → OrderStatus → ℕ → Option Sentinel
step_refusal none target actor = some not_found
step_refusal (some o) target actor =
    if not (may_request target o actor)
    then some forbidden
    else if not (can_transition_to o.status target)
    then some invalid_transition
    else none

abbrev Any : {A : Type 0} → A → World → Type 0
Any a w = Unit

emit_if_some-Serves :
    (event : Option String) (u c : ℕ) (w : World) → IsCalm w → Serves Any (emit_if_some event u c w)
emit_if_some-Serves none u c w calm = (tt, calm)
emit_if_some-Serves (some event) u c w calm =
    Serves-mono (Same w.db) Any _ (λ a v h. tt) (emit_event-Serves (some u) event (some c) w calm)

update_and_emit-Serves :
    (o : Order) (target : OrderStatus) (actor : ℕ) (w : World)
    → IsCalm w
    → Serves Any (
        proceed
          (recover
            (update_status o.id target w)
            (λ e. checkout_failed actor o.collectible_id (wrapped "update status" e)))
          (λ _. emit_if_some (status_event target) o.buyer_id o.collectible_id))
unfolding update_status
update_and_emit-Serves o target actor w calm =
    proceed_ok (Serves Any) _ _ (recover_ok _ _ (query_calm _ w calm))
      (emit_if_some-Serves (status_event target) o.buyer_id o.collectible_id _ calm)

write_status-Serves :
    (o : Order) (target : OrderStatus) (actor : ℕ) (reason : String) (w : World)
    → IsCalm w
    → Serves Any (write_status o target actor reason w)
unfolding write_status cancel
write_status-Serves o cancelled actor reason w calm =
    proceed_ok (Serves Any) _ _ (recover_ok _ _ (query_calm _ w calm))
      (emit_if_some-Serves (some "order_cancelled") actor o.collectible_id _ calm)
write_status-Serves o target actor reason w calm = update_and_emit-Serves o target actor w calm

record_transfer_of-Serves :
    (o : Order) (row : Option Collectible) (w : World)
    → IsCalm w
    → Serves Any (record_transfer_of o row w)
unfolding record_transfer_of record_tx_history
record_transfer_of-Serves o none w calm = (tt, calm)
record_transfer_of-Serves o (some c) w calm =
    subst (Serves Any) (sym (recover_ok _ _ (query_calm _ w calm))) (tt, calm)

transfer_if_completed-Serves :
    (target : OrderStatus) (o : Order) (w : World)
    → IsCalm w
    → Serves Any (transfer_if_completed target o w)
unfolding record_ownership_transfer get_collectible
transfer_if_completed-Serves completed o w calm =
    proceed_ok (Serves Any) _ _
      (recover_ok _ _
        (read_calm (λ now d. find (has_collectible_id o.collectible_id) d.collectibles) w calm))
      (record_transfer_of-Serves o _ w calm)
transfer_if_completed-Serves _ o w calm = (tt, calm)

notify_if-Serves :
    (b : Bool) (u : ℕ) (s : String) (p : Params) (w : World)
    → IsCalm w
    → Serves Any (notify_if b u s p w)
unfolding spawn
notify_if-Serves true u s p w calm = (tt, calm)
notify_if-Serves false u s p w calm = (tt, calm)

notify_slug-Serves :
    (s : Option String) (o : Order) (reason : String) (w : World)
    → IsCalm w
    → Serves Any (notify_slug s o reason w)
unfolding notify
notify_slug-Serves none o reason w calm = (tt, calm)
notify_slug-Serves (some s) o reason w calm =
    notify_if-Serves w.env.has_notifications o.buyer_id s (order_params o reason w) w calm

module _ (o : Order) (target : OrderStatus) (actor : ℕ) (reason : String) where
  P : Result Order → Type 0
  P = Verdict (step_refusal (some o) target actor)

  refused :
      (s : Sentinel) (m : String) (v : World)
      → step_refusal (some o) target actor ≡ some s
      → P (err (sentinel s m) v)
  unfolding P
  refused s m v h =
      subst (λ (r : Option Sentinel). Verdict {A = Order} r (err (sentinel s m) v)) (sym h)
        (errors_is_self s m)

  accepted : (r : Result Order) → step_refusal (some o) target actor ≡ none → Serves Any r → P r
  unfolding P
  accepted r h k =
      subst (λ (x : Option Sentinel). Verdict x r) (sym h)
        (Ends-mono (λ a v. Unit × IsCalm v) Never r (λ a v h. tt) (λ e v h. h) k)

  fail_if-cases :
      (b : Bool) (e : Error) (w : World) (f : Unit {0} → Action Order)
      → (b ≡ true → P (err e w))
      → (b ≡ false → P (f tt w))
      → P (proceed (fail_if b e w) f)
  unfolding proceed
  fail_if-cases true e w f h k = h refl
  fail_if-cases false e w f h k = k refl

  transition_read-Verdict : (w : World) → IsCalm w → P (transition_read o target actor reason w)
  unfolding transition_read record_transition send_order_notification
  transition_read-Verdict w calm =
      fail_if-cases _ _ w _ (λ h. refused forbidden _ w (ground (arith, h)))
        (λ allowed.
          refuse_if-cases P actor o.collectible_id w calm _ _ _
            (λ h v. refused invalid_transition _ v (ground (arith, allowed, h)))
            (λ possible. accepted _ (ground (arith, allowed, possible)) (
              proceed-Serves (Serves Any) Any _ _ (write_status-Serves o target actor reason w calm)
                (λ _ v _ cv. proceed_ok (Serves Any) _ _ (recover_ok _ _ (query_calm _ v cv)) (
                  proceed-Serves (Serves Any) Any _ _ (transfer_if_completed-Serves target o _ cv)
                    (λ _ u _ cu.
                      proceed-Serves (Serves Any) Any _ _
                        (notify_slug-Serves (status_slug target) o reason u cu)
                        (λ _ t _ ct. (tt, ct))))))))

module _ (id : ℕ) (target : OrderStatus) (actor : ℕ) (reason : String) (w : World)
    (calm : IsCalm w) where
  of_row :
      (row : Option Order)
      → Verdict (step_refusal row target actor) (
          proceed
            (found row (sentinel not_found "") w)
            (λ o. transition_read o target actor reason))
  unfolding proceed P
  of_row none = errors_is_self not_found ""
  of_row (some o) = transition_read-Verdict o target actor reason w calm

  -- Where no database call fails, `TransitionStatus` fails as not found for a missing order, as
  -- forbidden for an actor who may not ask for the status, and as an invalid transition where
  -- the status does not lead there, in this order; and in no other case: then it succeeds.
  pub transition_status-Verdict :
      Verdict
        (step_refusal (find (has_id id) w.db.orders) target actor)
        (transition_status id target actor reason w)
  unfolding transition_status get_order get_by_id proceed
  transition_status-Verdict =
      subst
        (λ (r : Result (Option Order)).
          Verdict (step_refusal (find (has_id id) w.db.orders) target actor) (
            proceed (proceed r (λ row. found row (sentinel not_found "")))
              (λ o. transition_read o target actor reason)))
        (sym (read_calm (λ now d. find (has_id id) d.orders) w calm))
        (of_row (find (has_id id) w.db.orders))
