-- ===== src/Orders/StatusWrites.antt =====
-- The writes of `OrderService.TransitionStatus`, one by one.
use w1t.Base.{
  ℕ, String, Bool, true, false, ◌≡◌, refl, subst, sym, ◌⊎◌, inl, inr, [], ◌∷◌, ◌++◌, Option, none,
  some, find,
}
use w1t.Errors.{Error}
use w1t.Model.Order.{Order, OrderStatus, completed, cancelled}
use w1t.Model.Collectible.{Collectible}
use w1t.Model.Notification.{Params}
use w1t.World.{World, Database}
use w1t.Action.{spawn, ◌>>◌}
use w1t.Action.Rules.{Ends, Same, Answers, Ends-mono, proceed-Ends, recover-Ends}
use w1t.Experiments.Rules.{emit_event-Ends}
use w1t.Collectibles.Store.Rules.{
  record_tx_history-Appends, get_by_id-Answers as get_collectible-Answers,
}
use w1t.Collectibles.Store.{has_id as has_collectible_id}
use w1t.Orders.Store.{set_status, set_cancelled, update_status}
use w1t.Orders.Store.Rules.{Rewrites, update_status-Rewrites, cancel-Rewrites}
use w1t.Orders.Service.{
  or_checkout_failed, write_status, notify, notify_if, send_order_notification, order_params,
  notify_slug, status_slug, status_event, record_ownership_transfer, record_transfer_of,
  transfer_entry, transfer_if_completed, emit_if_some,
}
use w1t.Orders.Rules.{or_checkout_failed-Ends, emit_if_some-Ends}

-- How the row of the order is rewritten.
abbrev pub new_row : OrderStatus → ℕ → String → ℕ → Order → Order
new_row cancelled actor reason = set_cancelled reason actor
new_row target actor reason = set_status target

abbrev pub Written : Order → OrderStatus → ℕ → String → Database → Database → Type 0
Written o target actor reason = Rewrites o.id (new_row target actor reason)

update_and_emit :
    (o : Order) (target : OrderStatus) (actor : ℕ) (w : World)
    → Ends
        (λ a v. Rewrites o.id (set_status target) w.db v.db)
        (λ e. Same w.db e)
        ((do
          or_checkout_failed actor o.collectible_id "update status" (update_status o.id target)
          emit_if_some (status_event target) o.buyer_id o.collectible_id)
          w)
update_and_emit o target actor w =
    proceed-Ends (λ a v. Rewrites o.id (set_status target) w.db v.db) _ _ _ _
      (or_checkout_failed-Ends (λ b. b ≡ w.db) _ actor o.collectible_id "update status" _
        (update_status-Rewrites o.id target w))
      λ a v p.
        Ends-mono (Same v.db) (λ e. Same w.db e) _
          (λ x u same. subst (λ b. Rewrites o.id (set_status target) w.db b) (sym same) p)
          (λ e u h. h) (emit_if_some-Ends _ (status_event target) o.buyer_id o.collectible_id v)

pub write_status-Written :
    (o : Order) (target : OrderStatus) (actor : ℕ) (reason : String) (w : World)
    → Ends
        (λ a v. Written o target actor reason w.db v.db)
        (λ e. Same w.db e)
        (write_status o target actor reason w)
unfolding write_status
write_status-Written o cancelled actor reason w =
    proceed-Ends (λ a v. Rewrites o.id (set_cancelled reason actor) w.db v.db) _ _ _ _
      (or_checkout_failed-Ends (λ b. b ≡ w.db) _ actor o.collectible_id "cancel order" _
        (cancel-Rewrites o.id reason actor w))
      λ a v p.
        Ends-mono (Same v.db) (λ e. Same w.db e) _
          (λ x u same. subst (λ b. Rewrites o.id (set_cancelled reason actor) w.db b) (sym same) p)
          (λ e u h. h) (emit_event-Ends _ (some actor) "order_cancelled" (some o.collectible_id) v)
write_status-Written o target actor reason w = update_and_emit o target actor w

notify_if-Same :
    (E : Error → World → Type 0) (b : Bool) (u : ℕ) (s : String) (p : Params) (w : World)
    → Ends (Same w.db) E (notify_if b u s p w)
unfolding spawn
notify_if-Same E true u s p w = refl
notify_if-Same E false u s p w = refl

pub notify-Same :
    (E : Error → World → Type 0) (u : ℕ) (s : String) (p : World → Params) (w : World)
    → Ends (Same w.db) E (notify u s p w)
unfolding notify
notify-Same E u s p w = notify_if-Same E w.env.has_notifications u s (p w) w

notify_slug-Same :
    (E : Error → World → Type 0) (s : Option String) (o : Order) (reason : String) (w : World)
    → Ends (Same w.db) E (notify_slug s o reason w)
notify_slug-Same E none o reason w = refl
notify_slug-Same E (some s) o reason w = notify-Same E o.buyer_id s (order_params o reason) w

pub send_order_notification-Same :
    (E : Error → World → Type 0) (o : Order) (s : OrderStatus) (reason : String) (w : World)
    → Ends (Same w.db) E (send_order_notification o s reason w)
unfolding send_order_notification
send_order_notification-Same E o s reason w = notify_slug-Same E (status_slug s) o reason w

-- The history of the collectible has one more entry, the transfer of `o`.
abbrev pub Transfers : Order → Database → Database → Type 0
Transfers o d d' =
    (c : Collectible) × (at : World) × (d'
      ≡ record d { tx_history = d.tx_history ++ (transfer_entry o c at ∷ []) })

-- The best effort of `recordOwnershipTransfer`.
abbrev pub MayTransfer : OrderStatus → Order → Database → Database → Type 0
MayTransfer completed o d d' = (d' ≡ d) ⊎ Transfers o d d'
MayTransfer target o d d' = d' ≡ d

record_transfer_of-Transfers :
    (E : Error → World → Type 0) (o : Order) (row : Option Collectible) (w : World)
    → Ends (λ a v. MayTransfer completed o w.db v.db) E (record_transfer_of o row w)
unfolding record_transfer_of
record_transfer_of-Transfers E o none w = inl refl
record_transfer_of-Transfers E o (some c) w =
    recover-Ends _ (λ e. Same w.db e) E _ _
      (Ends-mono
        (λ a v. v.db ≡ record w.db { tx_history = w.db.tx_history ++ (transfer_entry o c w ∷ []) })
        (λ e. Same w.db e) _ (λ a v h. inr (c, w, h)) (λ e v h. h)
        (record_tx_history-Appends (transfer_entry o c w) w))
      (λ e v h. inl h)

record_ownership_transfer-Transfers :
    (E : Error → World → Type 0) (o : Order) (w : World)
    → Ends (λ a v. MayTransfer completed o w.db v.db) E (record_ownership_transfer o w)
unfolding record_ownership_transfer
record_ownership_transfer-Transfers E o w =
    proceed-Ends (λ row v. v.db ≡ w.db) _ E _ _
      (recover-Ends (λ row v. v.db ≡ w.db) (λ e. Same w.db e) E _ _
        (Ends-mono (Answers (find (has_collectible_id o.collectible_id) w.db.collectibles) w.db)
          (λ e. Same w.db e) _ (λ row v h. h.1) (λ e v h. h)
          (get_collectible-Answers o.collectible_id w))
        (λ e v h. h))
      (λ row v h.
        subst (λ b. Ends (λ a u. MayTransfer completed o b u.db) E (record_transfer_of o row v)) h
          (record_transfer_of-Transfers E o row v))

pub transfer_if_completed-Transfers :
    (E : Error → World → Type 0) (target : OrderStatus) (o : Order) (w : World)
    → Ends (λ a v. MayTransfer target o w.db v.db) E (transfer_if_completed target o w)
transfer_if_completed-Transfers E completed o w = record_ownership_transfer-Transfers E o w
transfer_if_completed-Transfers E _ o w = refl
