-- ===== src/Orders/Store/Rules.antt =====
-- What each method of order_store.go does to the tables.
use w1t.Base.{ℕ, String, ◌≡◌, [], ◌∷◌, ◌++◌, find, exists, update, arith}
use w1t.Model.Order.{Order, OrderStatus, OrderStateTransition, Fulfillment}
use w1t.World.{World, Database}
use w1t.Action.Rules.{Ends, Same, Answers, query-Ends, read-Answers, read-Same}
use w1t.Orders.Store.{
  has_id, has_key, is_active_for, get_by_id, get_by_idempotency_key, has_active_order,
  acquire_advisory_lock, begin_tx, commit, set_status, set_cancelled, set_fulfillment,
  update_status, cancel, update_fulfillment, record_transition,
}

pub get_by_id-Answers :
    (id : ℕ) (w : World)
    → Ends (Answers (find (has_id id) w.db.orders) w.db) (λ e. Same w.db e) (get_by_id id w)
unfolding get_by_id
get_by_id-Answers id w = read-Answers (λ now d. find (has_id id) d.orders) w

pub get_by_idempotency_key-Answers :
    (buyer : ℕ) (key : String) (w : World)
    → Ends
        (Answers (find (has_key buyer key) w.db.orders) w.db)
        (λ e. Same w.db e)
        (get_by_idempotency_key buyer key w)
unfolding get_by_idempotency_key
get_by_idempotency_key-Answers buyer key w =
    read-Answers (λ now d. find (has_key buyer key) d.orders) w

pub has_active_order-Answers :
    (c : ℕ) (w : World)
    → Ends
        (Answers (exists (is_active_for c) w.db.orders) w.db)
        (λ e. Same w.db e)
        (has_active_order c w)
unfolding has_active_order
has_active_order-Answers c w = read-Answers (λ now d. exists (is_active_for c) d.orders) w

pub acquire_advisory_lock-Same :
    (c : ℕ) (w : World) → Ends (Same w.db) (λ e. Same w.db e) (acquire_advisory_lock c w)
unfolding acquire_advisory_lock
acquire_advisory_lock-Same c w = read-Same (λ now d. tt) w

pub begin_tx-Same : (w : World) → Ends (Same w.db) (λ e. Same w.db e) (begin_tx w)
unfolding begin_tx
begin_tx-Same w = read-Same (λ now d. tt) w

pub commit-Same : (w : World) → Ends (Same w.db) (λ e. Same w.db e) (commit w)
unfolding commit
commit-Same w = read-Same (λ now d. tt) w

-- The rows of order `id` have been rewritten by `f`, and nothing else.
abbrev pub Rewrites : ℕ → (ℕ → Order → Order) → Database → Database → Type 0
Rewrites id f d d' = (at : ℕ) × (d' ≡ record d { orders = update (has_id id) (f at) d.orders })

abbrev Writes : ℕ → (ℕ → Order → Order) → World → Unit {0} → World → Type 0
Writes id f w a v = Rewrites id f w.db v.db

pub update_status-Rewrites :
    (id : ℕ) (s : OrderStatus) (w : World)
    → Ends (λ a v. Rewrites id (set_status s) w.db v.db) (λ e. Same w.db e) (update_status id s w)
unfolding update_status
update_status-Rewrites id s w =
    query-Ends (Writes id (set_status s) w) (λ e. Same w.db e) _ w (λ e v h. h)
      (λ a v h. (w.now, ground arith))

pub cancel-Rewrites :
    (id : ℕ) (reason : String) (by : ℕ) (w : World)
    → Ends
        (λ a v. Rewrites id (set_cancelled reason by) w.db v.db)
        (λ e. Same w.db e)
        (cancel id reason by w)
unfolding cancel
cancel-Rewrites id reason by w =
    query-Ends (Writes id (set_cancelled reason by) w) (λ e. Same w.db e) _ w (λ e v h. h)
      (λ a v h. (w.now, ground arith))

pub update_fulfillment-Rewrites :
    (id : ℕ) (t : Fulfillment) (w : World)
    → Ends
        (λ a v. Rewrites id (set_fulfillment t) w.db v.db)
        (λ e. Same w.db e)
        (update_fulfillment id t w)
unfolding update_fulfillment
update_fulfillment-Rewrites id t w =
    query-Ends (Writes id (set_fulfillment t) w) (λ e. Same w.db e) _ w (λ e v h. h)
      (λ a v h. (w.now, ground arith))

-- The log has one more entry.
abbrev pub Logs : OrderStateTransition → Database → Database → Type 0
Logs t d d' =
    (at : ℕ) × (d'
      ≡ record d { transitions = d.transitions ++ (record t { created_at = at } ∷ []) })

pub record_transition-Logs :
    (t : OrderStateTransition) (w : World)
    → Ends (λ a v. Logs t w.db v.db) (λ e. Same w.db e) (record_transition t w)
unfolding record_transition
record_transition-Logs t w =
    query-Ends (λ a v. Logs t w.db v.db) (λ e. Same w.db e) _ w (λ e v h. h)
      (λ a v h. (w.now, ground arith))
