-- ===== src/Orders/Changes.antt =====
-- What each change of the table `orders` keeps.
use w1t.Base.{
  ℕ, suc, ◌≤◌, ◌<◌, String, Bool, true, false, ◌≡◌, refl, sym, ap, subst, [], ◌∷◌, ◌++◌, some,
  arith, find, exists, count, update, All, All-map, ==_iff,
}
use w1t.Model.Order.{Order, OrderStatus, cancelled, can_transition_to, Fulfillment}
use w1t.World.{Database}
use w1t.Orders.Store.{
  has_id, has_key, is_active, is_active_for, set_status, set_cancelled, set_fulfillment,
}
use w1t.Orders.Store.Rules.{Rewrites}
use w1t.Orders.Invariant.{
  Inv, Keeps, Distinct, find_unique, update-Inv, append-Inv, active_of_can_transition_to,
}
use w1t.Orders.Evolution.{
  Evolves, Persists, Persists-refl, Persists-trans, append-Persists, update-Persists, Follows,
  Follows-can_transition_to, stay, SameIdentity, set_status-SameIdentity,
  set_cancelled-SameIdentity, set_fulfillment-SameIdentity,
}
use w1t.Orders.Create.{NewlyPlaced}
use w1t.Orders.StatusWrites.{Written}

-- What a step between two tables does to the orders.
pub record Good (d d' : Database) : Type 0 where
  pub inv : Inv d → Inv d'
  pub persists : Inv d → Persists d.orders d'.orders

pub Good-trans : {d e f : Database} → Good d e → Good e f → Good d f
Good-trans {d} {e} {f} g h = record {
  inv = λ v. h.inv (g.inv v);
  persists = λ v. Persists-trans d.orders e.orders f.orders (g.persists v) (h.persists (g.inv v));
}

-- Nothing about the orders has changed, and no id has been taken back.
pub frame-Good : (d d' : Database) → d'.orders ≡ d.orders → d.next_id ≤ d'.next_id → Good d d'
frame-Good d d' e le = record {
  inv = λ v. record {
    below =
        subst (All (λ o. o.id < d'.next_id)) (sym e)
          (All-map _ _ d.orders (λ o h. omega arith) v.below);
    distinct = subst Distinct (sym e) v.distinct;
    one_active = λ c. subst (λ os. count (is_active_for c) os ≤ 1) (sym e) (v.one_active c);
    one_key = λ b k. subst (λ os. count (has_key b k) os ≤ 1) (sym e) (v.one_key b k);
  };
  persists = λ v. subst (Persists d.orders) (sym e) (Persists-refl d.orders);
}

pub same-Good : (d d' : Database) → d' ≡ d → Good d d'
same-Good d d' e =
    frame-Good d d' (ap (λ (b : Database). b.orders) e)
      (subst (λ b. d.next_id ≤ b.next_id) (sym e) (omega arith))

-- A rewriting of the row of one order to a later state of it.
rewrite-Good :
    (id : ℕ) (f : Order → Order) (o : Order) (d : Database)
    → Keeps f
    → find (has_id id) d.orders ≡ some o
    → (is_active (f o).status ≡ true → is_active o.status ≡ true)
    → Evolves o (f o)
    → Good d (record d { orders = update (has_id id) f d.orders })
rewrite-Good id f o d k found wakes e = record {
  inv = λ v.
      update-Inv (has_id id) f k d
        (All-map _
          (λ p. has_id id p ≡ true → is_active (f p).status ≡ true → is_active p.status ≡ true)
          d.orders
          (λ p only hit.
            subst (λ p. is_active (f p).status ≡ true → is_active p.status ≡ true)
              (sym (only ((==_iff p.id id).0 hit))) wakes)
          (find_unique id d.orders o v.distinct found))
        v;
  persists = λ v. update-Persists (has_id id) f d.orders (
      All-map _ (λ p. has_id id p ≡ true → Evolves p (f p)) d.orders
        (λ p only hit. subst (λ p. Evolves p (f p)) (sym (only ((==_iff p.id id).0 hit))) e)
        (find_unique id d.orders o v.distinct found));
}

pub placed-Good :
    (c : ℕ) (key : String) (buyer : ℕ) (d d' : Database) (o : Order)
    → NewlyPlaced c key buyer d o d'
    → Good d d'
placed-Good c key buyer d d' o (item, sellable, p) =
    Good-trans {e = record d { next_id = suc d.next_id; orders = d.orders ++ (o ∷ []) }}
      (record {
        inv = λ v.
            append-Inv d o (ap (λ (r : Order). r.id) p.row)
              (subst (λ n. find_active n ≡ false) (sym (ap (λ (r : Order). r.collectible_id) p.row))
                p.idle)
              (subst (λ (r : Order). used r ≡ false) (sym p.row) p.unused) v;
        persists = λ v. append-Persists d.orders (o ∷ []);
      })
      (frame-Good _ d' (ap (λ (b : Database). b.orders) p.tables)
        (subst (λ b. suc d.next_id ≤ b.next_id) (sym p.tables) (omega arith)))
  where
    find_active : ℕ → Bool
    find_active n = exists (is_active_for n) d.orders

    used : Order → Bool
    used r = exists (has_key r.buyer_id r.idempotency_key) d.orders

set_status-Keeps : (t : OrderStatus) (at : ℕ) → Keeps (set_status t at)
set_status-Keeps t at = record {
  id = λ o. refl;
  buyer_id = λ o. refl;
  idempotency_key = λ o. refl;
  collectible_id = λ o. refl;
}

set_cancelled-Keeps : (reason : String) (by at : ℕ) → Keeps (set_cancelled reason by at)
set_cancelled-Keeps reason by at = record {
  id = λ o. refl;
  buyer_id = λ o. refl;
  idempotency_key = λ o. refl;
  collectible_id = λ o. refl;
}

set_fulfillment-Keeps : (t : Fulfillment) (at : ℕ) → Keeps (set_fulfillment t at)
set_fulfillment-Keeps t at = record {
  id = λ o. refl;
  buyer_id = λ o. refl;
  idempotency_key = λ o. refl;
  collectible_id = λ o. refl;
}

-- `p` has the identity fields of `o` and the status `t`.
moved :
    (o p : Order) (t : OrderStatus)
    → SameIdentity o p
    → p.status ≡ t
    → can_transition_to o.status t ≡ true
    → Evolves o p
moved o p t same e h = record {
  same = same;
  way = subst (Follows o.status) (sym e) (Follows-can_transition_to o.status t h);
}

set_status-Good :
    (o : Order) (target : OrderStatus) (d d' : Database)
    → find (has_id o.id) d.orders ≡ some o
    → can_transition_to o.status target ≡ true
    → Rewrites o.id (set_status target) d d'
    → Good d d'
set_status-Good o target d d' found possible (at, e) = subst (Good d) (sym e) (
    rewrite-Good o.id (set_status target at) o d (set_status-Keeps target at) found
      (λ on. active_of_can_transition_to o.status target possible)
      (moved o _ target (set_status-SameIdentity o target at) refl possible))

set_cancelled-Good :
    (o : Order) (reason : String) (by : ℕ) (d d' : Database)
    → find (has_id o.id) d.orders ≡ some o
    → can_transition_to o.status cancelled ≡ true
    → Rewrites o.id (set_cancelled reason by) d d'
    → Good d d'
set_cancelled-Good o reason by d d' found possible (at, e) = subst (Good d) (sym e) (
    rewrite-Good o.id (set_cancelled reason by at) o d (set_cancelled-Keeps reason by at) found
      (λ on. active_of_can_transition_to o.status cancelled possible)
      (moved o _ cancelled (set_cancelled-SameIdentity o reason by at) refl possible))

pub Written-Good :
    (o : Order) (target : OrderStatus) (actor : ℕ) (reason : String) (d d' : Database)
    → find (has_id o.id) d.orders ≡ some o
    → can_transition_to o.status target ≡ true
    → Written o target actor reason d d'
    → Good d d'
Written-Good o cancelled actor reason d d' found possible w =
    set_cancelled-Good o reason actor d d' found possible w
Written-Good o target actor reason d d' found possible w =
    set_status-Good o target d d' found possible w

pub tracked-Good :
    (id : ℕ) (t : Fulfillment) (o : Order) (d d' : Database)
    → find (has_id id) d.orders ≡ some o
    → Rewrites id (set_fulfillment t) d d'
    → Good d d'
tracked-Good id t o d d' found (at, e) = subst (Good d) (sym e) (
    rewrite-Good id (set_fulfillment t at) o d (set_fulfillment-Keeps t at) found (λ on. on)
      (record { same = set_fulfillment-SameIdentity o t at; way = stay o.status }))
