-- ===== src/Orders/History.antt =====
-- Histories of the order service: requests that run one after another, with anything else that
-- leaves the table `orders` alone between them.
use w1t.Base.{
  ℕ, ◌≤◌, String, true, ◌≡◌, refl, sym, ap, subst, inl, inr, some, arith, find, find_holds, ==_iff,
}
use w1t.Model.Order.{Order, OrderStatus, completed, Fulfillment, OrderStateTransition}
use w1t.World.{World, Database}
use w1t.Action.{Result, ok, err, world_of}
use w1t.Action.Rules.{Ends}
use w1t.Orders.Store.{has_id, set_fulfillment}
use w1t.Orders.Store.Rules.{Rewrites, Logs}
use w1t.Orders.Service.{
  is_party, transition_of, create, get, transition_status, approve_refund, open_arbitration,
  fulfill,
}
use w1t.Orders.Create.{Creates, create-Creates}
use w1t.Orders.Changes.{
  Good, Good-trans, frame-Good, same-Good, placed-Good, Written-Good, tracked-Good,
}
use w1t.Orders.StatusWrites.{MayTransfer}
use w1t.Orders.Transition.{Transitions, transition_status-Transitions}
use w1t.Orders.Aftercare.{
  Finds, IsClosed, get-Shows, approve_refund-Approves, open_arbitration-Opens, fulfill-Tracks,
}

pub create-Good :
    (c buyer : ℕ) (key : String) (d : Database) (r : Result Order)
    → Creates c buyer key d r
    → Good d (world_of r).db
create-Good c buyer key d (ok o v) (inl (found, e)) = same-Good d v.db e
create-Good c buyer key d (ok o v) (inr (unused, placed)) = placed-Good c key buyer d v.db o placed
create-Good c buyer key d (err e v) h = same-Good d v.db h

transfer-Good :
    (target : OrderStatus) (o : Order) (d d' : Database) → MayTransfer target o d d' → Good d d'
transfer-Good completed o d d' (inl e) = same-Good d d' e
transfer-Good completed o d d' (inr (c, at, e)) =
    frame-Good d d' (ap (λ (b : Database). b.orders) e)
      (subst (λ b. d.next_id ≤ b.next_id) (sym e) (omega arith))
transfer-Good _ o d d' e = same-Good d d' e

logged-Good : (t : OrderStateTransition) (d d' : Database) → Logs t d d' → Good d d'
logged-Good t d d' (at, e) =
    frame-Good d d' (ap (λ (b : Database). b.orders) e)
      (subst (λ b. d.next_id ≤ b.next_id) (sym e) (omega arith))

found_self :
    (id : ℕ) (o : Order) (d : Database)
    → find (has_id id) d.orders ≡ some o
    → find (has_id o.id) d.orders ≡ some o
found_self id o d found =
    let e : o.id ≡ id = (==_iff o.id id).0 (find_holds (has_id id) d.orders found) in
    subst (λ n. find (has_id n) d.orders ≡ some o) (sym e) found

transition-Good :
    (id : ℕ) (target : OrderStatus) (actor : ℕ) (reason : String) (d : Database) (r : Result Order)
    → Transitions id target actor reason d r
    → Good d (world_of r).db
transition-Good id target actor reason d (ok p v) (o, found, answer, done) =
    Good-trans
      (Written-Good o target actor reason d done.written (found_self id o d found)
        done.permitted.possible done.write)
      (Good-trans
        (logged-Good (transition_of o.id o.status target actor reason) done.written done.logged
          done.log)
        (transfer-Good target o done.logged v.db done.transfer))
transition-Good id target actor reason d (err e v) (inl same) = same-Good d v.db same
transition-Good id target actor reason d (err e v) (inr (o, found, permitted, write)) =
    Written-Good o target actor reason d v.db (found_self id o d found) permitted.possible write

-- A call of the order service.
pub data Request : Type 0 where
  creates : ℕ → ℕ → String → Request
  gets refunds arbitrates : ℕ → ℕ → String → Request
  transitions : ℕ → OrderStatus → ℕ → String → Request
  fulfills : ℕ → Fulfillment → ℕ → Request

-- The world that it leaves, however it ends.
unfoldable pub run : Request → World → World
run (creates c buyer key) w = world_of (create c buyer key w)
run (gets id actor reason) w = world_of (get id actor w)
run (refunds id actor reason) w = world_of (approve_refund id actor reason w)
run (arbitrates id actor reason) w = world_of (open_arbitration id actor w)
run (transitions id target actor reason) w = world_of (transition_status id target actor reason w)
run (fulfills id tracking actor) w = world_of (fulfill id tracking actor w)

same_after-Good :
    {A : Type 0} (Q : A → World → Type 0) (d : Database) (r : Result A)
    → ((a : A) (v : World) → Q a v → v.db ≡ d)
    → Ends Q (λ e v. v.db ≡ d) r
    → Good d (world_of r).db
same_after-Good Q d (ok a v) k h = same-Good d v.db (k a v h)
same_after-Good Q d (err e v) k h = same-Good d v.db h

fulfill-Good :
    (id : ℕ) (t : Fulfillment) (actor : ℕ) (d : Database) (r : Result (Unit {0}))
    → Ends
        (λ a v.
          (o : Order) × (find (has_id id) d.orders ≡ some o)
          × (o.seller_id ≡ actor)
          × Rewrites id (set_fulfillment t) d v.db)
        (λ e v. v.db ≡ d)
        r
    → Good d (world_of r).db
fulfill-Good id t actor d (ok a v) (o, found, own, write) = tracked-Good id t o d v.db found write
fulfill-Good id t actor d (err e v) h = same-Good d v.db h

run-Good : (r : Request) (w : World) → Good w.db (run r w).db
unfolding run
run-Good (creates c buyer key) w = create-Good c buyer key w.db _ (create-Creates c buyer key w)
run-Good (gets id actor reason) w =
    same_after-Good (λ o v. Finds id o w.db × (is_party o actor ≡ true) × (v.db ≡ w.db)) w.db _
      (λ o v h. h.2) (get-Shows id actor w)
run-Good (refunds id actor reason) w =
    same_after-Good (λ o v. Finds id o w.db × (o.seller_id ≡ actor) × IsClosed o × (v.db ≡ w.db))
      w.db _ (λ o v h. h.3) (approve_refund-Approves id actor reason w)
run-Good (arbitrates id actor reason) w =
    same_after-Good (λ o v. Finds id o w.db × (is_party o actor ≡ true) × (v.db ≡ w.db)) w.db _
      (λ o v h. h.2) (open_arbitration-Opens id actor w)
run-Good (transitions id target actor reason) w =
    transition-Good id target actor reason w.db _
      (transition_status-Transitions id target actor reason w)
run-Good (fulfills id tracking actor) w =
    fulfill-Good id tracking actor w.db _ (fulfill-Tracks id actor tracking w)

-- One step of a history: a request that is served whole, or anything that leaves the orders alone
-- (time passes, other tables change, database calls begin or cease to fail).
pub data Step (w : World) : World → Type 0 where
  serve : (r : Request) → Step w (run r w)
  elapse : (v : World) → v.db.orders ≡ w.db.orders → w.db.next_id ≤ v.db.next_id → Step w v

pub data Reach (w : World) : World → Type 0 where
  here : Reach w w
  next : {v u : World} → Reach w v → Step v u → Reach w u

Step-Good : {w v : World} → Step w v → Good w.db v.db
Step-Good {w} (serve r) = run-Good r w
Step-Good {w} (elapse v e le) = frame-Good w.db v.db e le

pub Reach-Good : {w v : World} → Reach w v → Good w.db v.db
Reach-Good {w} here = same-Good w.db w.db refl
Reach-Good (next r s) = Good-trans (Reach-Good r) (Step-Good s)
