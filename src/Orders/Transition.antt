-- ===== src/Orders/Transition.antt =====
-- What `OrderService.TransitionStatus` does to the tables, on every branch.
use w1t.Base.{ℕ, String, true, not, ◌≡◌, refl, subst, sym, ◌∙◌, ◌⊎◌, inl, inr, some, arith, find}
use w1t.Errors.{Error}
use w1t.Model.Order.{Order, OrderStatus, can_transition_to}
use w1t.World.{World, Database}
use w1t.Action.{Result, ok, err, ◌>>◌, pure, in_context}
use w1t.Action.Rules.{Ends, Same, Ends-mono, proceed-Ends, recover-Ends, fail_if-Ends}
use w1t.Orders.Store.{has_id, record_transition}
use w1t.Orders.Store.Rules.{Logs, record_transition-Logs}
use w1t.Orders.Service.{
  may_request, transition_of, transition_read, transition_status, send_order_notification,
  transfer_if_completed,
}
use w1t.Orders.Lookup.{with_order-Ends}
use w1t.Orders.StatusWrites.{
  Written, MayTransfer, write_status-Written, send_order_notification-Same,
  transfer_if_completed-Transfers,
}
use w1t.Orders.Rules.{refuse_if-Ends}

-- The actor may ask for the status, and the order can go there.
pub record Permitted (o : Order) (target : OrderStatus) (actor : ℕ) : Type 0 where
  pub allowed : may_request target o actor ≡ true
  pub possible : can_transition_to o.status target ≡ true

-- A completed request: the row is rewritten, the step is logged, and the transfer may be too.
pub record Done (o : Order) (target : OrderStatus) (actor : ℕ) (reason : String) (d d' : Database)
    : Type 0 where
  pub permitted : Permitted o target actor
  pub written : Database
  pub logged : Database
  pub write : Written o target actor reason d written
  pub log : Logs (transition_of o.id o.status target actor reason) written logged
  pub transfer : MayTransfer target o logged d'

-- A request that fails: nothing has changed, or the row is rewritten and the step is not logged.
abbrev pub Stopped : Order → OrderStatus → ℕ → String → Database → Database → Type 0
Stopped o target actor reason d d' =
    (d' ≡ d) ⊎ (Permitted o target actor × Written o target actor reason d d')

abbrev pub Ending : Order → OrderStatus → ℕ → String → Database → Result Order → Type 0
Ending o target actor reason d =
    Ends (λ r v. (r ≡ record o { status = target }) × Done o target actor reason d v.db)
      (λ e v. Stopped o target actor reason d v.db)

module _ (o : Order) (target : OrderStatus) (actor : ℕ) (reason : String) (d : Database) where
  abbrev E : Error → World → Type 0
  E e v = Stopped o target actor reason d v.db

  abbrev R : Order → World → Type 0
  R r v = (r ≡ record o { status = target }) × Done o target actor reason d v.db

  -- After the status has been written.
  after_write :
      (w : World)
      → Permitted o target actor
      → Written o target actor reason d w.db
      → Ends R E (
          (do
            in_context "record transition"
                (record_transition (transition_of o.id o.status target actor reason))
            transfer_if_completed target o
            send_order_notification o target reason
            pure (record o { status = target }))
            w)
  after_write w permitted write =
      proceed-Ends (λ a v. Logs (transition_of o.id o.status target actor reason) w.db v.db) R E _ _
        (recover-Ends _ (λ e. Same w.db e) E _ _ (record_transition-Logs _ w)
          (λ e v h. inr (permitted, subst (Written o target actor reason d) (sym h) write)))
        λ _ v log.
          proceed-Ends (λ a u. MayTransfer target o v.db u.db) R E _ _
            (transfer_if_completed-Transfers E target o v)
            λ _ u transfer.
              proceed-Ends (Same u.db) R E _ _ (send_order_notification-Same E o target reason u)
                λ _ t same. (
                  refl,
                  record {
                    permitted = permitted;
                    written = w.db;
                    logged = v.db;
                    write = write;
                    log = log;
                    transfer = subst (MayTransfer target o v.db) (sym same) transfer;
                  },
                )

  transition_read-Ending :
      (w : World) → w.db ≡ d → Ends R E (transition_read o target actor reason w)
  unfolding transition_read
  transition_read-Ending w at =
      proceed-Ends (λ a v. (may_request target o actor ≡ true) × (v.db ≡ d)) R E _ _
        (fail_if-Ends _ E (not (may_request target o actor)) _ w (λ h. inl at)
          (λ h. (ground arith, at)))
        λ _ v p.
          proceed-Ends (λ a u. Permitted o target actor × (u.db ≡ d)) R E _ _
            (refuse_if-Ends (Stopped o target actor reason d) _
              (not (can_transition_to o.status target)) actor o.collectible_id _ v (inl p.1)
              (λ h. (record { allowed = p.0; possible = ground arith }, p.1)))
            λ _ u q.
              proceed-Ends (λ a t. Written o target actor reason d t.db) R E _ _
                (Ends-mono (λ a t. Written o target actor reason u.db t.db) (λ e. Same u.db e) _
                  (λ a t h. subst (λ b. Written o target actor reason b t.db) q.1 h)
                  (λ e t h. inl (h ∙ q.1)) (write_status-Written o target actor reason u))
                λ _ t written. after_write t q.0 written

-- How `TransitionStatus` ends, for the order of the id.
abbrev pub Transitions : ℕ → OrderStatus → ℕ → String → Database → Result Order → Type 0
Transitions id target actor reason d =
    Ends
      (λ r v.
        (o : Order) × (find (has_id id) d.orders ≡ some o)
        × (r ≡ record o { status = target })
        × Done o target actor reason d v.db)
      (λ e v.
        (v.db ≡ d)
        ⊎ ((o : Order) × (find (has_id id) d.orders ≡ some o)
            × Permitted o target actor
            × Written o target actor reason d v.db))

module _ (id : ℕ) (target : OrderStatus) (actor : ℕ) (reason : String) where
  Ending-Transitions :
      (d : Database) (o : Order) (r : Result Order)
      → find (has_id id) d.orders ≡ some o
      → Ending o target actor reason d r
      → Transitions id target actor reason d r
  Ending-Transitions d o (ok r v) f h = (o, f, h.0, h.1)
  Ending-Transitions d o (err e v) f (inl h) = inl h
  Ending-Transitions d o (err e v) f (inr h) = inr (o, f, h.0, h.1)

  -- Whatever database calls fail: on success the order of the id was permitted
  -- the step to the status, for this actor; its row alone is rewritten, one log
  -- entry is added with the old status and the new, on completion at most one
  -- entry of the ownership history, and the answer is the order with the new
  -- status. On an error nothing has changed, or the step was permitted and
  -- written and only its log entry is missing.
  pub transition_status-Transitions :
      (w : World)
      → Transitions id target actor reason w.db (transition_status id target actor reason w)
  unfolding transition_status
  transition_status-Transitions w =
      with_order-Ends _
        (λ e v.
          (v.db ≡ w.db)
          ⊎ ((o : Order) × (find (has_id id) w.db.orders ≡ some o)
              × Permitted o target actor
              × Written o target actor reason w.db v.db))
        id w _ (λ e v h. inl h)
        (λ o v f at.
          Ending-Transitions w.db o _ f (transition_read-Ending o target actor reason w.db v at))
