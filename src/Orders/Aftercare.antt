-- ===== src/Orders/Aftercare.antt =====
-- `GetByID`, `ApproveRefund`, `OpenArbitration` and `UpdateFulfillment` of order_service.go, on every
-- branch: who is let through, and what changes.
use w1t.Base.{
  ℕ, String, true, false, not, ◌&&◌, ◌≡◌, refl, ◌∙◌, subst, ◌⊎◌, inl, [], ◌∷◌, some, arith, find,
  ◌==◌,
}
use w1t.Errors.{Error}
use w1t.Model.Order.{Order, OrderStatus, completed, cancelled, status_eq, Fulfillment}
use w1t.World.{World, Database}
use w1t.Action.Rules.{Ends, Same, Ends-mono, proceed-Ends, fail_if-Ends}
use w1t.Experiments.Rules.{emit_event-Ends}
use w1t.Orders.Store.{has_id, set_fulfillment}
use w1t.Orders.Store.Rules.{Rewrites, update_fulfillment-Rewrites}
use w1t.Orders.Service.{get, approve_refund, open_arbitration, fulfill, is_party, order_params}
use w1t.Orders.Lookup.{with_order-Ends}
use w1t.Orders.StatusWrites.{notify-Same}

abbrev pub Finds : ℕ → Order → Database → Type 0
Finds id o d = find (has_id id) d.orders ≡ some o

abbrev pub IsClosed : Order → Type 0
IsClosed o = (o.status ≡ completed) ⊎ (o.status ≡ cancelled)

module _ (id actor : ℕ) where
  -- An order is shown to its buyer and its seller only, and showing it changes no table.
  pub get-Shows :
      (w : World)
      → Ends
          (λ o v. Finds id o w.db × (is_party o actor ≡ true) × (v.db ≡ w.db))
          (λ e v. v.db ≡ w.db)
          (get id actor w)
  unfolding get
  get-Shows w =
      with_order-Ends _ (λ e v. v.db ≡ w.db) id w _ (λ e v h. h)
        λ o v f at.
          proceed-Ends (λ a u. (is_party o actor ≡ true) × (u.db ≡ w.db)) _ (λ e v. v.db ≡ w.db) _ _
            (fail_if-Ends _ (λ e v. v.db ≡ w.db) (not (is_party o actor)) _ v (λ h. at)
              (λ h. (ground arith, at)))
            λ _ u p. (f, p.0, p.1)

  -- A refund is approved by the seller alone, of a completed or cancelled order; the approval
  -- changes no table, on any branch.
  pub approve_refund-Approves :
      (reason : String) (w : World)
      → Ends
          (λ o v. Finds id o w.db × (o.seller_id ≡ actor) × IsClosed o × (v.db ≡ w.db))
          (λ e v. v.db ≡ w.db)
          (approve_refund id actor reason w)
  unfolding approve_refund
  approve_refund-Approves reason w =
      with_order-Ends R E id w _ (λ e v h. h)
        λ o v f at.
          proceed-Ends (λ a u. (o.seller_id ≡ actor) × (u.db ≡ w.db)) R E _ _
            (fail_if-Ends _ E (not (o.seller_id == actor)) _ v (λ h. at) (λ h. (ground arith, at)))
            λ _ u p.
              proceed-Ends (λ a t. IsClosed o × (t.db ≡ w.db)) R E _ _
                (fail_if-Ends _ E
                  (not (status_eq o.status completed) && not (status_eq o.status cancelled)) _ u
                  (λ h. p.1) (λ h. (closed_of o.status h, p.1)))
                λ _ t q.
                  proceed-Ends (λ a s. s.db ≡ t.db) R E _ _
                    (emit_event-Ends E (some actor) "refund_approved" (some o.collectible_id) t)
                    λ _ s same.
                      proceed-Ends (λ a r. r.db ≡ s.db) R E _ _
                        (notify-Same E o.buyer_id "refund_approved" (order_params o reason) s)
                        λ _ r same'. (f, p.0, q.0, same' ∙ same ∙ q.1)
    where
      R : Order → World → Type 0
      R o v = Finds id o w.db × (o.seller_id ≡ actor) × IsClosed o × (v.db ≡ w.db)

      E : Error → World → Type 0
      E e v = v.db ≡ w.db

      closed_of :
          (s : OrderStatus)
          → not (status_eq s completed) && not (status_eq s cancelled) ≡ false
          → (s ≡ completed) ⊎ (s ≡ cancelled)
      closed_of completed h = inl refl
      closed_of _ h = ground arith

  -- Arbitration is opened by the buyer or the seller alone, and changes no table.
  pub open_arbitration-Opens :
      (w : World)
      → Ends
          (λ o v. Finds id o w.db × (is_party o actor ≡ true) × (v.db ≡ w.db))
          (λ e v. v.db ≡ w.db)
          (open_arbitration id actor w)
  unfolding open_arbitration
  open_arbitration-Opens w =
      with_order-Ends R E id w _ (λ e v h. h)
        λ o v f at.
          proceed-Ends (λ a u. (is_party o actor ≡ true) × (u.db ≡ w.db)) R E _ _
            (fail_if-Ends _ E (not (is_party o actor)) _ v (λ h. at) (λ h. (ground arith, at)))
            λ _ u p.
              proceed-Ends (λ a s. s.db ≡ u.db) R E _ _
                (emit_event-Ends E (some actor) "arbitration_opened" (some o.collectible_id) u)
                λ _ s same.
                  proceed-Ends (λ a r. r.db ≡ s.db) R E _ _
                    (notify-Same E o.buyer_id "arbitration_opened"
                      (λ x. ("OrderID", x.env.uuid_string o.id) ∷ []) s)
                    λ _ r same'. (f, p.0, same' ∙ same ∙ p.1)
    where
      R : Order → World → Type 0
      R o v = Finds id o w.db × (is_party o actor ≡ true) × (v.db ≡ w.db)

      E : Error → World → Type 0
      E e v = v.db ≡ w.db

  -- Tracking is written by the seller alone, to the row of that order alone; an error changes nothing.
  pub fulfill-Tracks :
      (tracking : Fulfillment) (w : World)
      → Ends
          (λ a v.
            (o : Order) × Finds id o w.db
            × (o.seller_id ≡ actor)
            × Rewrites id (set_fulfillment tracking) w.db v.db)
          (λ e v. v.db ≡ w.db)
          (fulfill id tracking actor w)
  unfolding fulfill
  fulfill-Tracks tracking w =
      with_order-Ends R E id w _ (λ e v h. h)
        λ o v f at.
          proceed-Ends (λ a u. (o.seller_id ≡ actor) × (u.db ≡ w.db)) R E _ _
            (fail_if-Ends _ E (not (o.seller_id == actor)) _ v (λ h. at) (λ h. (ground arith, at)))
            λ _ u p.
              Ends-mono (λ a t. Rewrites id (set_fulfillment tracking) u.db t.db) (λ e. Same u.db e)
                {F = E} _
                (λ a t h.
                  (o, f, p.0, subst (λ b. Rewrites id (set_fulfillment tracking) b t.db) p.1 h))
                (λ e t h. h ∙ p.1) (update_fulfillment-Rewrites id tracking u)
    where
      R : Unit {0} → World → Type 0
      R a v =
          (o : Order) × Finds id o w.db
          × (o.seller_id ≡ actor)
          × Rewrites id (set_fulfillment tracking) w.db v.db

      E : Error → World → Type 0
      E e v = v.db ≡ w.db
