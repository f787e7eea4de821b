-- ===== src/Orders/Invariant.antt =====
-- The invariant of the table `orders`, and the changes that keep it.
use w1t.Base.{
  ℕ, suc, ◌≤◌, ◌<◌, String, Bool, true, false, ◌&&◌, str_eq, str_eq_iff, ◌≡◌, ◌≢◌, sym, ◌∙◌, subst,
  List, [], ◌∷◌, ◌++◌, some, arith, find, exists, count, update, All, All-append, All-map,
  All-update, count-append, count-update-le, count-zero_of_not-exists, Bool-cases, inl, inr, ◌==◌,
  if◌then◌else◌,
}
use w1t.Model.Order.{Order, OrderStatus, can_transition_to, allowed_transitions}
use w1t.World.{Database}
use w1t.Orders.Store.{has_id, has_key, is_active, is_active_for}

-- No two rows have one id.
abbrev pub Distinct : List Order → Type 0
Distinct [] = Unit
Distinct (o ∷ os) = All (λ p. p.id ≢ o.id) os × Distinct os

-- Ids are below the next one and distinct; a collectible has at most one active order; a buyer has
-- at most one order under a key.
pub record Inv (d : Database) : Type 0 where
  pub below : All (λ o. o.id < d.next_id) d.orders
  pub distinct : Distinct d.orders
  pub one_active : (c : ℕ) → count (is_active_for c) d.orders ≤ 1
  pub one_key : (buyer : ℕ) (key : String) → count (has_key buyer key) d.orders ≤ 1

-- An order that may go anywhere is active.
pub active_of_can_transition_to :
    (s t : OrderStatus) → can_transition_to s t ≡ true → is_active s ≡ true
unfolding can_transition_to allowed_transitions
active_of_can_transition_to s t h = ground arith

All-absent :
    (P : Order → Type 0) (n : ℕ) (os : List Order)
    → All (λ p. p.id ≢ n) os
    → All (λ p. p.id ≡ n → P p) os
All-absent P n [] h = tt
All-absent P n (p ∷ os) h = ((λ e. absurd (h.0 e)), All-absent P n os h.1)

-- The row that is found by an id is the only one with it.
pub find_unique :
    (id : ℕ) (os : List Order) (o : Order)
    → Distinct os
    → find (has_id id) os ≡ some o
    → All (λ p. p.id ≡ id → p ≡ o) os
find_unique id [] o d h = tt
find_unique id (p ∷ os) o d h = elim (Bool-cases (has_id id p)) [
  | inl hit ↦
      let same : p ≡ o = ground arith in
      let e : p.id ≡ id = ground arith in
      ((λ k. same), All-absent _ id os (subst (λ n. All (λ q. q.id ≢ n) os) e d.0))
  | inr miss ↦ ((λ e. absurd (ground arith)), find_unique id os o d.1 (ground arith))
]

-- A rewriting that leaves the identity of a row alone.
pub record Keeps (f : Order → Order) : Type 0 where
  pub id : (o : Order) → (f o).id ≡ o.id
  pub buyer_id : (o : Order) → (f o).buyer_id ≡ o.buyer_id
  pub idempotency_key : (o : Order) → (f o).idempotency_key ≡ o.idempotency_key
  pub collectible_id : (o : Order) → (f o).collectible_id ≡ o.collectible_id

module _ (q : Order → Bool) (f : Order → Order) (k : Keeps f) where
  ne-update :
      (n : ℕ) (os : List Order) → All (λ p. p.id ≢ n) os → All (λ p. p.id ≢ n) (update q f os)
  ne-update n os h = All-update (λ p. p.id ≢ n) q f os (λ p ne e. ne (sym (k.id p) ∙ e)) h

  pub update-Distinct : (os : List Order) → Distinct os → Distinct (update q f os)
  update-Distinct [] h = tt
  update-Distinct (o ∷ os) h = (case_of (q o), update-Distinct os h.1)
    where
      case_of : (b : Bool) → All (λ p. p.id ≢ (if b then f o else o).id) (update q f os)
      case_of true =
          subst (λ n. All (λ p. p.id ≢ n) (update q f os)) (sym (k.id o)) (ne-update o.id os h.0)
      case_of false = ne-update o.id os h.0

  -- Rewriting the rows of one id keeps the invariant, if it makes no row active that was not.
  pub update-Inv :
      (d : Database)
      → All (λ p. q p ≡ true → is_active (f p).status ≡ true → is_active p.status ≡ true) d.orders
      → Inv d
      → Inv (record d { orders = update q f d.orders })
  update-Inv d wakes v = record {
    below =
        All-update (λ o. o.id < d.next_id) q f d.orders
          (λ o h. subst (λ n. n < d.next_id) (sym (k.id o)) h) v.below;
    distinct = update-Distinct d.orders v.distinct;
    one_active = λ c. omega (
      arith,
      v.one_active c,
      count-update-le (is_active_for c) q f d.orders
          (All-map _ _ d.orders (λ p w hit on. still_active c p (w hit) on) wakes),
    );
    one_key = λ buyer key. omega (
      arith,
      v.one_key buyer key,
      count-update-le (has_key buyer key) q f d.orders
          (All-map _ _ d.orders (λ p w hit on. still_keyed buyer key p on) wakes),
    );
  }
    where
      still_active :
          (c : ℕ) (p : Order)
          → (is_active (f p).status ≡ true → is_active p.status ≡ true)
          → is_active_for c (f p) ≡ true
          → is_active_for c p ≡ true
      still_active c p w on = ground (arith, k.collectible_id p)

      still_keyed :
          (buyer : ℕ) (key : String) (p : Order)
          → has_key buyer key (f p) ≡ true
          → has_key buyer key p ≡ true
      still_keyed buyer key p on =
          subst (λ n. (n == buyer && str_eq p.idempotency_key key) ≡ true) (k.buyer_id p)
            (subst (λ (s : String). ((f p).buyer_id == buyer && str_eq s key) ≡ true)
              (k.idempotency_key p) on)

absent_above : (n : ℕ) (os : List Order) → All (λ o. o.id < n) os → All (λ o. n ≢ o.id) os
absent_above n os h = All-map _ _ os (λ o lt e. absurd (omega arith)) h

append-Distinct :
    (os : List Order) (o : Order)
    → Distinct os
    → All (λ p. o.id ≢ p.id) os
    → Distinct (os ++ (o ∷ []))
append-Distinct [] o d h = (tt, tt)
append-Distinct (p ∷ os) o d h =
    (All-append (λ q. q.id ≢ p.id) os (o ∷ []) d.0 (h.0, tt), append-Distinct os o d.1 h.1)

-- A new active order keeps the invariant where its collectible has none and its key is unused.
pub append-Inv :
    (d : Database) (o : Order)
    → o.id ≡ d.next_id
    → exists (is_active_for o.collectible_id) d.orders ≡ false
    → exists (has_key o.buyer_id o.idempotency_key) d.orders ≡ false
    → Inv d
    → Inv (record d { next_id = suc d.next_id; orders = d.orders ++ (o ∷ []) })
append-Inv d o fresh idle unused v = record {
  below =
      All-append (λ p. p.id < suc d.next_id) d.orders (o ∷ [])
        (All-map _ _ d.orders (λ p h. omega arith) v.below) (omega arith, tt);
  distinct = append-Distinct d.orders o v.distinct (
      subst (λ n. All (λ p. n ≢ p.id) d.orders) (sym fresh)
        (absent_above d.next_id d.orders v.below));
  one_active = λ c. grind (
    arith,
    v.one_active c,
    count-append (is_active_for c) d.orders (o ∷ []),
    count-zero_of_not-exists (is_active_for o.collectible_id) d.orders idle,
  );
  one_key = λ buyer key. one_key_of buyer key;
}
  where
    unused_by :
        (buyer : ℕ) (key : String)
        → o.buyer_id ≡ buyer
        → o.idempotency_key ≡ key
        → count (has_key buyer key) d.orders ≡ 0
    unused_by buyer key b k =
        subst (λ n. count (has_key n key) d.orders ≡ 0) b
          (subst (λ s. count (has_key o.buyer_id s) d.orders ≡ 0) k
            (count-zero_of_not-exists (has_key o.buyer_id o.idempotency_key) d.orders unused))

    one_key_of : (buyer : ℕ) (key : String) → count (has_key buyer key) (d.orders ++ (o ∷ [])) ≤ 1
    one_key_of buyer key = ground (
      arith,
      v.one_key buyer key,
      count-append (has_key buyer key) d.orders (o ∷ []),
      str_eq_iff o.idempotency_key key,
      unused_by buyer key,
    )
