-- ===== src/Orders/Evolution.antt =====
-- How orders change over time: what a row keeps, and the way of its status.
use w1t.Base.{
  ℕ, String, Bool, true, false, ◌&&◌, ◌≡◌, refl, ap, ◌∙◌, subst, List, [], ◌∷◌, ◌++◌, some, arith,
  find, update, All, find-append_some, Bool-cases, inl, inr, ◌==◌, str_eq, if◌then◌else◌,
}
use w1t.Model.Order.{
  Order, OrderStatus, Fulfillment, completed, cancelled, can_transition_to, allowed_transitions,
}
use w1t.Orders.Store.{has_id, has_key, set_status, set_cancelled, set_fulfillment}

-- A way along `AllowedTransitions`.
pub data Follows : OrderStatus → OrderStatus → Type 0 where
  stay : (s : OrderStatus) → Follows s s
  move : (s t u : OrderStatus) → can_transition_to s t ≡ true → Follows t u → Follows s u

pub Follows-trans : {s t u : OrderStatus} → Follows s t → Follows t u → Follows s u
Follows-trans (stay s) g = g
Follows-trans (move s t u h f) g = move s t _ h (Follows-trans f g)

pub Follows-can_transition_to : (s t : OrderStatus) → can_transition_to s t ≡ true → Follows s t
Follows-can_transition_to s t h = move s t t h (stay t)

-- A completed or cancelled order stays so.
pub completed_stays : {s t : OrderStatus} → Follows s t → s ≡ completed → t ≡ completed
unfolding can_transition_to allowed_transitions
completed_stays (stay s) e = e
completed_stays (move s t u h f) e = ground arith

pub cancelled_stays : {s t : OrderStatus} → Follows s t → s ≡ cancelled → t ≡ cancelled
unfolding can_transition_to allowed_transitions
cancelled_stays (stay s) e = e
cancelled_stays (move s t u h f) e = ground arith

-- What no operation changes of an order.
pub record SameIdentity (o p : Order) : Type 0 where
  pub id : p.id ≡ o.id
  pub idempotency_key : p.idempotency_key ≡ o.idempotency_key
  pub buyer_id : p.buyer_id ≡ o.buyer_id
  pub collectible_id : p.collectible_id ≡ o.collectible_id
  pub seller_id : p.seller_id ≡ o.seller_id
  pub price : p.price_snapshot_cents ≡ o.price_snapshot_cents

SameIdentity-fields :
    (o p : Order)
    → p.id ≡ o.id
    → p.idempotency_key ≡ o.idempotency_key
    → p.buyer_id ≡ o.buyer_id
    → p.collectible_id ≡ o.collectible_id
    → p.seller_id ≡ o.seller_id
    → p.price_snapshot_cents ≡ o.price_snapshot_cents
    → SameIdentity o p
SameIdentity-fields o p a b c d e f = record {
  id = a;
  idempotency_key = b;
  buyer_id = c;
  collectible_id = d;
  seller_id = e;
  price = f;
}

pub SameIdentity-refl : (o : Order) → SameIdentity o o
SameIdentity-refl o = SameIdentity-fields o o refl refl refl refl refl refl

pub set_status-SameIdentity :
    (o : Order) (t : OrderStatus) (at : ℕ) → SameIdentity o (set_status t at o)
set_status-SameIdentity o t at = SameIdentity-fields o _ refl refl refl refl refl refl

pub set_cancelled-SameIdentity :
    (o : Order) (reason : String) (by at : ℕ) → SameIdentity o (set_cancelled reason by at o)
set_cancelled-SameIdentity o reason by at = SameIdentity-fields o _ refl refl refl refl refl refl

pub set_fulfillment-SameIdentity :
    (o : Order) (t : Fulfillment) (at : ℕ) → SameIdentity o (set_fulfillment t at o)
set_fulfillment-SameIdentity o t at = SameIdentity-fields o _ refl refl refl refl refl refl

pub SameIdentity-trans : {o p q : Order} → SameIdentity o p → SameIdentity p q → SameIdentity o q
SameIdentity-trans h k = record {
  id = k.id ∙ h.id;
  idempotency_key = k.idempotency_key ∙ h.idempotency_key;
  buyer_id = k.buyer_id ∙ h.buyer_id;
  collectible_id = k.collectible_id ∙ h.collectible_id;
  seller_id = k.seller_id ∙ h.seller_id;
  price = k.price ∙ h.price;
}

-- `p` is a later state of the order `o`.
pub record Evolves (o p : Order) : Type 0 where
  pub same : SameIdentity o p
  pub way : Follows o.status p.status

-- A test that only looks at what no operation changes.
abbrev pub IsIdentityTest : (Order → Bool) → Type 0
IsIdentityTest t = (o p : Order) → SameIdentity o p → t p ≡ t o

pub has_id-IsIdentityTest : (id : ℕ) → IsIdentityTest (has_id id)
has_id-IsIdentityTest id o p s = ap (λ (n : ℕ). n == id) s.id

pub has_key-IsIdentityTest : (buyer : ℕ) (key : String) → IsIdentityTest (has_key buyer key)
has_key-IsIdentityTest buyer key o p s =
    ap (λ (n : ℕ). n == buyer && str_eq p.idempotency_key key) s.buyer_id
    ∙ ap (λ (t : String). o.buyer_id == buyer && str_eq t key) s.idempotency_key

-- Whatever order is found before is found after, in a later state.
abbrev pub Persists : List Order → List Order → Type 0
Persists os ps =
    (t : Order → Bool) (o : Order)
    → IsIdentityTest t
    → find t os ≡ some o
    → (p : Order) × (find t ps ≡ some p) × Evolves o p

pub Persists-refl : (os : List Order) → Persists os os
Persists-refl os t o i h = (o, h, record { same = SameIdentity-refl o; way = stay o.status })

pub Persists-trans : (os ps qs : List Order) → Persists os ps → Persists ps qs → Persists os qs
Persists-trans os ps qs f g t o i h =
    let (p, hp, ep) = f t o i h in
    let (q, hq, eq) = g t p i hp in
    (q, hq, record { same = SameIdentity-trans ep.same eq.same; way = Follows-trans ep.way eq.way })

pub append-Persists : (os ps : List Order) → Persists os (os ++ ps)
append-Persists os ps t o i h =
    (o, find-append_some t os ps h, record { same = SameIdentity-refl o; way = stay o.status })

module _ (q : Order → Bool) (f : Order → Order) where
  evolve_one :
      (b : Bool) (o : Order) → (b ≡ true → Evolves o (f o)) → Evolves o (if b then f o else o)
  evolve_one true o h = h refl
  evolve_one false o h = record { same = SameIdentity-refl o; way = stay o.status }

  -- A rewriting of rows that takes each to a later state of itself.
  pub update-Persists :
      (os : List Order) → All (λ o. q o ≡ true → Evolves o (f o)) os → Persists os (update q f os)
  update-Persists [] k t o i h = cc
  update-Persists (x ∷ os) k t o i h = elim (Bool-cases (t x)) [
    | inl hit ↦
        let here : x ≡ o = ground arith in
        let e : Evolves x x' = evolve_one (q x) x k.0 in
        (x', rw (i x x' e.same ∙ hit) refl, subst (λ y. Evolves y x') here e)
    | inr miss ↦
        let e : Evolves x x' = evolve_one (q x) x k.0 in
        let (p, hp, ep) = update-Persists os k.1 t o i (ground arith) in
        (p, rw (i x x' e.same ∙ miss) hp, ep)
  ]
    where
      x' : Order
      x' = if q x then f x else x
