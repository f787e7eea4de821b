-- ===== src/Orders/Promises.antt =====
-- What the order service promises over any history of calls, whatever database calls fail.
use w1t.Base.{
  ℕ, ◌≤◌, ◌<◌, String, ◌≡◌, sym, ap, subst, ◌∙◌, inl, inr, [], some, arith, find, count, All,
  find-append_none, str_eq_refl, true,
}
use w1t.Model.Order.{Order, completed, cancelled}
use w1t.World.{World, Database}
use w1t.Errors.{Error, wrapped, store, unavailable}
use w1t.Action.{Result, ok, next_fault}
use w1t.Action.Rules.{Ends, Same, Answers, proceed-Ends, recover-Ends, read_or_fault}
use w1t.Experiments.Rules.{emit_event-Ends}
use w1t.Orders.Store.{has_id, has_key, is_active_for, get_by_idempotency_key}
use w1t.Orders.Service.{create, create_new, unless_existing}
use w1t.Orders.Invariant.{Inv, Distinct}
use w1t.Orders.Evolution.{
  Evolves, has_id-IsIdentityTest, has_key-IsIdentityTest, completed_stays, cancelled_stays,
}
use w1t.Orders.Create.{Creates, create-Creates}
use w1t.Orders.History.{Reach, Reach-Good, create-Good}

empty-Inv : (w : World) → w.db.orders ≡ [] → Inv w.db
empty-Inv w e = record {
  below = subst (All (λ o. o.id < w.db.next_id)) (sym e) tt;
  distinct = subst Distinct (sym e) tt;
  one_active = λ c. subst (λ os. count (is_active_for c) os ≤ 1) (sym e) (omega arith);
  one_key = λ b k. subst (λ os. count (has_key b k) os ≤ 1) (sym e) (omega arith);
}

-- From an empty order table on, no history of requests that are served one at
-- a time, whatever database calls fail in them, leaves a collectible with two
-- active orders.
pub never_oversold :
    (w v : World) → w.db.orders ≡ [] → Reach w v → (c : ℕ) → count (is_active_for c) v.db.orders ≤ 1
never_oversold w v e r = ((Reach-Good r).inv (empty-Inv w e)).one_active

-- From tables that keep the invariant of the orders, an order is never lost,
-- its buyer, seller, collectible, key and price never change, and its status
-- only moves along the allowed transitions.
pub order_persists :
    (w v : World) (id : ℕ) (o : Order)
    → Inv w.db
    → Reach w v
    → find (has_id id) w.db.orders ≡ some o
    → (p : Order) × (find (has_id id) v.db.orders ≡ some p) × Evolves o p
order_persists w v id o i r h = (Reach-Good r).persists i (has_id id) o (has_id-IsIdentityTest id) h

-- From tables that keep the invariant of the orders, a completed order stays
-- completed and a cancelled one cancelled, whatever is requested later.
pub closed_for_good :
    (w v : World) (id : ℕ) (o : Order)
    → Inv w.db
    → Reach w v
    → find (has_id id) w.db.orders ≡ some o
    → (p : Order) × (find (has_id id) v.db.orders ≡ some p)
      × (o.status ≡ completed → p.status ≡ completed)
      × (o.status ≡ cancelled → p.status ≡ cancelled)
closed_for_good w v id o i r h =
    let (p, found, e) = order_persists w v id o i r h in
    (p, found, completed_stays e.way, cancelled_stays e.way)

-- `find` finds the new row where the key was unused.
keyed_after :
    (c buyer : ℕ) (key : String) (d : Database) (o : Order) (w : World)
    → Creates c buyer key d (ok o w)
    → find (has_key buyer key) w.db.orders ≡ some o
keyed_after c buyer key d o w (inl (found, e)) =
    subst (λ b. find (has_key buyer key) b.orders ≡ some o) (sym e) found
keyed_after c buyer key d o w (inr (unused, (item, sellable, p))) =
    subst (λ b. find (has_key buyer key) b.orders ≡ some o) (sym p.tables)
      (find-append_none (has_key buyer key) d.orders o unused
        (subst (λ r. has_key buyer key r ≡ true) (sym p.row) (ground (arith, str_eq_refl key))))

-- The answer of a repeated request, or why it fails.
abbrev pub Repeats : ℕ → String → Order → World → Result Order → Type 0
Repeats buyer key o v =
    Ends (λ q u. (find (has_key buyer key) v.db.orders ≡ some q) × Evolves o q × (u.db ≡ v.db))
      (λ e u.
        (e ≡ wrapped "check idempotency" (store unavailable))
        × (next_fault v.faults ≡ true)
        × (u.db ≡ v.db))

again :
    (c buyer : ℕ) (key : String) (o p : Order) (v : World)
    → find (has_key buyer key) v.db.orders ≡ some p
    → Evolves o p
    → Repeats buyer key o v (create c buyer key v)
unfolding create get_by_idempotency_key
again c buyer key o p v found e =
    proceed-Ends (Answers (find (has_key buyer key) v.db.orders) v.db) Q E _ _
      (recover-Ends (Answers (find (has_key buyer key) v.db.orders) v.db) F E _ _
        (read_or_fault (λ now d. find (has_key buyer key) d.orders) v)
        (λ x u failed.
          proceed-Ends (Same u.db) (Answers (find (has_key buyer key) v.db.orders) v.db) E _ _
            (emit_event-Ends E (some buyer) "checkout_failed" (some c) u)
            (λ a t same. (ap (wrapped "check idempotency") failed.0, failed.1, same ∙ failed.2))))
      λ row u h.
        subst (λ x. Ends Q E (unless_existing x (create_new c buyer key) u)) (sym (h.0 ∙ found))
          (found, e, h.1)
  where
    Q : Order → World → Type 0
    Q q u = (find (has_key buyer key) v.db.orders ≡ some q) × Evolves o q × (u.db ≡ v.db)

    E : Error → World → Type 0
    E x u =
        (x ≡ wrapped "check idempotency" (store unavailable))
        × (next_fault v.faults ≡ true)
        × (u.db ≡ v.db)

    F : Error → World → Type 0
    F x u = (x ≡ store unavailable) × (next_fault v.faults ≡ true) × (u.db ≡ v.db)

-- Once Create has answered with an order, every later Create of the buyer with
-- the same key, for whatever collectible, changes no table, and answers with
-- the row of that order as it stands then. It fails only where the database
-- call that looks for the key does.
pub create_again :
    (w w' v : World) (c c' buyer : ℕ) (key : String) (o : Order)
    → Inv w.db
    → create c buyer key w ≡ ok o w'
    → Reach w' v
    → Repeats buyer key o v (create c' buyer key v)
create_again w w' v c c' buyer key o i made r =
    let h = subst (Creates c buyer key w.db) made (create-Creates c buyer key w) in
    let (p, found, e) =
      (Reach-Good r).persists ((create-Good c buyer key w.db (ok o w') h).inv i) (has_key buyer key)
        o (has_key-IsIdentityTest buyer key) (keyed_after c buyer key w.db o w' h) in
    again c' buyer key o p v found e
