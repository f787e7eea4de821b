-- ===== src/Orders/Create.antt =====
-- What `OrderService.Create` does to the tables, on every branch.
use w1t.Base.{
  ℕ, String, Bool, true, false, not, ◌≡◌, subst, sym, ◌∙◌, ◌⊎◌, inl, inr, Option, none, some, arith,
  find, ◌==◌,
}
use w1t.Errors.{Error, sentinel, not_found}
use w1t.Model.Order.{Order}
use w1t.Model.Collectible.{Collectible}
use w1t.World.{World, Database}
use w1t.Action.{Result, pure, ◌>>=◌, ◌>>◌, transaction}
use w1t.Action.Rules.{
  Ends, Same, Answers, Ends-mono, proceed-Ends, recover-Ends, transaction-Ends, found-Ends,
}
use w1t.Orders.Store.Rules.{get_by_idempotency_key-Answers, begin_tx-Same}
use w1t.Experiments.{emit_event}
use w1t.Experiments.Rules.{emit_event-Ends}
use w1t.Collectibles.Store.{has_id as has_collectible_id, get_by_id as get_collectible}
use w1t.Collectibles.Store.Rules.{get_by_id-Answers as get_collectible-Answers}
use w1t.Orders.Store.{has_key, begin_tx}
use w1t.Orders.Service.{
  or_checkout_failed, place_order, create_new, create, is_published, unless_existing,
}
use w1t.Orders.Placement.{Placed, place_order-Made}
use w1t.Orders.Rules.{checkout_failed-Ends, or_checkout_failed-Ends, refuse_if-Ends}

passed : {b : Bool} → not b ≡ false → b ≡ true
passed h = ground arith

-- What the collectible was that an accepted order names.
pub record Sellable (collectible_id buyer : ℕ) (d : Database) (c : Collectible) : Type 0 where
  pub listed : find (has_collectible_id collectible_id) d.collectibles ≡ some c
  pub published : is_published c ≡ true
  pub foreign : (c.seller_id == buyer) ≡ false

-- A new order for a collectible that could be sold.
abbrev pub NewlyPlaced : ℕ → String → ℕ → Database → Order → Database → Type 0
NewlyPlaced collectible_id key buyer d o d' =
    (c : Collectible) × Sellable collectible_id buyer d c × Placed collectible_id key c buyer d o d'

module _ (collectible_id : ℕ) (buyer : ℕ) (key : String) where
  abbrev Unmoved : Database → Database → Type 0
  Unmoved d d' = d' ≡ d

  -- The checks of the collectible.
  abbrev Checked : Database → Collectible → World → Type 0
  Checked d c v = Sellable collectible_id buyer d c × (v.db ≡ d)

  place_sellable :
      (c : Collectible) (d : Database) (w : World)
      → Checked d c w
      → Ends
          (λ o v. NewlyPlaced collectible_id key buyer d o v.db)
          (λ e v. v.db ≡ d)
          ((do
            or_checkout_failed buyer collectible_id "begin tx" begin_tx
            order ← transaction (place_order collectible_id key c buyer)
            emit_event (some buyer) "order_created" (some collectible_id)
            pure order)
            w)
  place_sellable c d w (sellable, at_d) =
      proceed-Ends (λ x v. v.db ≡ d) R E _ _
        (or_checkout_failed-Ends (Unmoved d) _ buyer collectible_id "begin tx" _ (
          Ends-mono (Same w.db) (λ e. Same w.db e) _ (λ x v h. h ∙ at_d) (λ e v h. h ∙ at_d)
            (begin_tx-Same w)))
        λ _ v at.
          proceed-Ends (λ o u. Placed collectible_id key c buyer d o u.db) R E _ _
            (transaction-Ends _ E _ v
              (Ends-mono (λ o u. Placed collectible_id key c buyer v.db o u.db) (λ e u. Unit) _
                (λ o u p. subst (λ b. Placed collectible_id key c buyer b o u.db) at p)
                (λ e u h. tt) (place_order-Made collectible_id key c buyer v))
              (λ e u h. h ∙ at))
            λ o u p.
              proceed-Ends (Same u.db) R E _ _
                (emit_event-Ends E (some buyer) "order_created" (some collectible_id) u)
                λ _ t same.
                  (c, sellable, subst (λ b. Placed collectible_id key c buyer d o b) (sym same) p)
    where
      R : Order → World → Type 0
      R o v = NewlyPlaced collectible_id key buyer d o v.db

      E : Error → World → Type 0
      E e v = v.db ≡ d

  create_new-Placed :
      (d : Database) (w : World)
      → w.db ≡ d
      → Ends
          (λ o v. NewlyPlaced collectible_id key buyer d o v.db)
          (λ e v. v.db ≡ d)
          (create_new collectible_id buyer key w)
  unfolding create_new
  create_new-Placed d w at_d =
      proceed-Ends (Answers (find (has_collectible_id collectible_id) d.collectibles) d) R E _ _
        (recover-Ends _ E E _ _
          (subst
            (λ b.
              Ends (Answers (find (has_collectible_id collectible_id) b.collectibles) b)
                (λ e v. v.db ≡ b) (get_collectible collectible_id w))
            at_d (get_collectible-Answers collectible_id w))
          (λ e v h. h))
        λ row v answer.
          proceed-Ends
            (λ c u. (find (has_collectible_id collectible_id) d.collectibles ≡ some c) × (u.db ≡ d))
            R E _ _
            (recover-Ends _ E E _ _
              (found-Ends _ E row (sentinel not_found "") v (λ h. answer.1)
                (λ c h. (sym answer.0 ∙ h, answer.1)))
              (λ e u h. checkout_failed-Ends (Unmoved d) _ buyer collectible_id e u h))
            λ c u l.
              proceed-Ends (λ x t. (is_published c ≡ true) × (t.db ≡ d)) R E _ _
                (refuse_if-Ends (Unmoved d) _ (not (is_published c)) buyer collectible_id _ u l.1
                  (λ h. (passed h, l.1)))
                λ _ t p.
                  proceed-Ends (λ x s. Checked d c s) R E _ _
                    (refuse_if-Ends (Unmoved d) _ (c.seller_id == buyer) buyer collectible_id _ t
                      p.1 (λ h. (record { listed = l.0; published = p.0; foreign = h }, p.1)))
                    λ _ s checked. place_sellable c d s checked
    where
      R : Order → World → Type 0
      R o v = NewlyPlaced collectible_id key buyer d o v.db

      E : Error → World → Type 0
      E e v = v.db ≡ d

  -- How `Create` ends: with the order that already has the buyer's key, and no change; with a new
  -- order; or with an error, and no change.
  abbrev pub Creates : Database → Result Order → Type 0
  Creates d =
      Ends
        (λ o v.
          ((find (has_key buyer key) d.orders ≡ some o) × (v.db ≡ d))
          ⊎ ((find (has_key buyer key) d.orders ≡ none)
              × NewlyPlaced collectible_id key buyer d o v.db))
        (λ e v. v.db ≡ d)

  unless_existing-Creates :
      (row : Option Order) (w v : World)
      → Answers (find (has_key buyer key) w.db.orders) w.db row v
      → Creates w.db (unless_existing row (create_new collectible_id buyer key) v)
  unless_existing-Creates (some o) w v answer = inl (sym answer.0, answer.1)
  unless_existing-Creates none w v answer =
      Ends-mono _
        {R = λ o u.
          ((find (has_key buyer key) w.db.orders ≡ some o) × (u.db ≡ w.db))
          ⊎ ((find (has_key buyer key) w.db.orders ≡ none)
              × NewlyPlaced collectible_id key buyer w.db o u.db)}
        (λ e u. u.db ≡ w.db) (create_new collectible_id buyer key v)
        (λ o u p. inr (sym answer.0, p)) (λ e u h. h) (create_new-Placed w.db v answer.1)

  -- Whatever database calls fail, Create either answers with the buyer's earlier
  -- order under the same key and changes no table, or adds exactly one pending
  -- order (for a published collectible of another seller that has no active
  -- order, at its present price) with its log entry, or reports an error and
  -- leaves every table as it was.
  pub create-Creates : (w : World) → Creates w.db (create collectible_id buyer key w)
  unfolding create
  create-Creates w =
      proceed-Ends (Answers (find (has_key buyer key) w.db.orders) w.db) _ (λ e v. v.db ≡ w.db) _ _
        (or_checkout_failed-Ends (Unmoved w.db) _ buyer collectible_id "check idempotency" _
          (get_by_idempotency_key-Answers buyer key w))
        (λ row v answer. unless_existing-Creates row w v answer)
