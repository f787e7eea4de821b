-- ===== src/Orders/Placement.antt =====
-- The statements of `OrderService.Create` within its transaction.
use w1t.Base.{
  ℕ, suc, String, false, ◌≡◌, refl, subst, sym, ap, ◌∙◌, [], ◌∷◌, ◌++◌, some, arith, exists,
}
use w1t.Errors.{Error}
use w1t.Model.Order.{Order, OrderStateTransition, unset, pending}
use w1t.Model.Collectible.{Collectible}
use w1t.World.{World, Database}
use w1t.Action.{Result, Action, pure, ◌>>=◌, ◌>>◌}
use w1t.Action.Rules.{Ends, Same, Answers, Ends-mono, proceed-Ends, query-Ends}
use w1t.Orders.Store.Rules.{
  Logs, has_active_order-Answers, acquire_advisory_lock-Same, commit-Same, record_transition-Logs,
}
use w1t.Orders.Store.{has_key, is_active_for, commit, create_in_tx, insert_order, record_transition}
use w1t.Orders.Service.{or_checkout_failed, place_order, new_order, transition_of}
use w1t.Orders.Rules.{or_checkout_failed-Ends, refuse_if-Ends}

-- `o` is the new row and `d'` the tables with it, where the tables were `d`.
pub record Placed (collectible_id : ℕ) (key : String) (c : Collectible) (buyer : ℕ) (d : Database)
    (o : Order) (d' : Database) : Type 0 where
  pub at : ℕ
  pub log : OrderStateTransition
  pub idle : exists (is_active_for collectible_id) d.orders ≡ false
  pub unused : exists (has_key buyer key) d.orders ≡ false
  pub row : o ≡ record (new_order key buyer c collectible_id) {
    id = d.next_id;
    created_at = at;
    updated_at = at;
  }
  pub logged :
      record log { created_at = 0 } ≡ transition_of o.id unset pending buyer "order created"
  pub tables : d' ≡ record d {
    next_id = suc d.next_id;
    orders = d.orders ++ (o ∷ []);
    transitions = d.transitions ++ (log ∷ []);
  }

module _ (collectible_id : ℕ) (key : String) (c : Collectible) (buyer : ℕ) where
  -- The insertion alone.
  record Inserted (d : Database) (o : Order) (d' : Database) : Type 0 where
    at : ℕ
    unused : exists (has_key buyer key) d.orders ≡ false
    row : o ≡ record (new_order key buyer c collectible_id) {
      id = d.next_id;
      created_at = at;
      updated_at = at;
    }
    tables : d' ≡ record d { next_id = suc d.next_id; orders = d.orders ++ (o ∷ []) }

  insert-Inserted :
      (now : ℕ) (d d' : Database) (o : Order)
      → insert_order (new_order key buyer c collectible_id) now d ≡ some (o, d')
      → Inserted d o d'
  insert-Inserted now d d' o h = record {
    at = now;
    unused = ground arith;
    row = ground arith;
    tables = ground arith;
  }

  abbrev Any : Database → Type 0
  Any d = Unit

  abbrev pub Made : Database → Order → World → Type 0
  Made d o v = Placed collectible_id key c buyer d o v.db

  abbrev pub Failed : Error → World → Type 0
  Failed e v = Unit

  drop :
      {A : Type 0} (Q : A → World → Type 0) (E : Error → World → Type 0) (r : Result A)
      → Ends Q E r
      → Ends Q Failed r
  drop Q E r = Ends-mono Q E r (λ a v h. h) (λ e v h. tt)

  create_in_tx-Inserted :
      (w : World)
      → Ends
          (λ o v. Inserted w.db o v.db)
          Failed
          (create_in_tx (new_order key buyer c collectible_id) w)
  unfolding create_in_tx
  create_in_tx-Inserted w =
      query-Ends (λ o v. Inserted w.db o v.db) Failed _ w (λ e v h. tt)
        (λ o v h. insert-Inserted w.now w.db v.db o h)

  log-Placed :
      (d d' d'' : Database) (o : Order)
      → exists (is_active_for collectible_id) d.orders ≡ false
      → Inserted d o d'
      → Logs (transition_of o.id unset pending buyer "order created") d' d''
      → Placed collectible_id key c buyer d o d''
  log-Placed d d' d'' o idle i (at, l) = record {
    at = i.at;
    log = record (transition_of o.id unset pending buyer "order created") { created_at = at };
    idle = idle;
    unused = i.unused;
    row = i.row;
    logged = refl;
    tables = ground (arith, i.tables);
  }

  -- The statements after the check for active orders.
  abbrev insert_and_log : Action Order
  insert_and_log = do
    order ←
        or_checkout_failed buyer collectible_id "create order"
          (create_in_tx (new_order key buyer c collectible_id))
    or_checkout_failed buyer collectible_id "record transition"
        (record_transition (transition_of order.id unset pending buyer "order created"))
    or_checkout_failed buyer collectible_id "commit" commit
    pure order

  insert_and_log-Made :
      (d : Database) (w : World)
      → w.db ≡ d
      → exists (is_active_for collectible_id) d.orders ≡ false
      → Ends (Made d) Failed (insert_and_log w)
  insert_and_log-Made d w e idle =
      proceed-Ends (λ o v. Inserted w.db o v.db) (Made d) Failed _ _
        (or_checkout_failed-Ends Any _ buyer collectible_id "create order" _
          (create_in_tx-Inserted w))
        λ o v new.
          proceed-Ends (λ x u. Made d o u) (Made d) Failed _ _
            (or_checkout_failed-Ends Any _ buyer collectible_id "record transition" _ (
              Ends-mono
                (λ x u. Logs (transition_of o.id unset pending buyer "order created") v.db u.db)
                (λ e. Same v.db e) _
                (λ x u l. log-Placed d v.db u.db o idle (subst (λ b. Inserted b o v.db) e new) l)
                (λ e u l. tt) (record_transition-Logs _ v)))
            λ _ u made.
              proceed-Ends (λ x t. Made d o t) (Made d) Failed _ _
                (or_checkout_failed-Ends Any _ buyer collectible_id "commit" _ (
                  Ends-mono (Same u.db) (λ e. Same u.db e) _
                    (λ x t same.
                      subst (λ b. Placed collectible_id key c buyer d o b) (sym same) made)
                    (λ e t same. tt) (commit-Same u)))
                λ _ t done. done

  pub place_order-Made :
      (w : World) → Ends (Made w.db) Failed (place_order collectible_id key c buyer w)
  unfolding place_order
  place_order-Made w =
      proceed-Ends (Same w.db) (Made w.db) Failed _ _
        (or_checkout_failed-Ends Any _ buyer collectible_id "acquire lock" _
          (drop (Same w.db) _ _ (acquire_advisory_lock-Same collectible_id w)))
        λ _ v same.
          proceed-Ends (Answers (exists (is_active_for collectible_id) v.db.orders) v.db)
            (Made w.db) Failed _ _
            (or_checkout_failed-Ends Any _ buyer collectible_id "check active orders" _ (
              drop (Answers (exists (is_active_for collectible_id) v.db.orders) v.db) _ _
                (has_active_order-Answers collectible_id v)))
            λ busy u answer.
              proceed-Ends (λ x t. (busy ≡ false) × (t.db ≡ u.db)) (Made w.db) Failed _ _
                (refuse_if-Ends Any _ busy buyer collectible_id _ u tt (λ h. (h, refl)))
                λ _ t idle. insert_and_log-Made w.db t (idle.1 ∙ answer.1 ∙ same) (
                  sym (
                    answer.0
                    ∙ ap (λ (d : Database). exists (is_active_for collectible_id) d.orders) same)
                  ∙ idle.0)
