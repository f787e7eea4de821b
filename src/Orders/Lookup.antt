-- ===== src/Orders/Lookup.antt =====
-- How the methods of `OrderService` read the order that they are about.
use w1t.Base.{ℕ, ◌≡◌, sym, ◌∙◌, some, find}
use w1t.Errors.{Error, sentinel, not_found}
use w1t.Model.Order.{Order}
use w1t.World.{World}
use w1t.Action.{Action, proceed}
use w1t.Action.Rules.{Ends, Same, Answers, Ends-mono, proceed-Ends, found-Ends}
use w1t.Orders.Store.{has_id}
use w1t.Orders.Store.Rules.{get_by_id-Answers}
use w1t.Orders.Service.{get_order}

-- `get_order` answers with the row of the id, or fails; it changes nothing.
pub get_order-Found :
    (id : ℕ) (w : World)
    → Ends
        (λ o v. (find (has_id id) w.db.orders ≡ some o) × (v.db ≡ w.db))
        (λ e. Same w.db e)
        (get_order id w)
unfolding get_order
get_order-Found id w =
    proceed-Ends (Answers (find (has_id id) w.db.orders) w.db) _ (λ e. Same w.db e) _ _
      (get_by_id-Answers id w)
      λ row v answer.
        found-Ends _ _ row (sentinel not_found "") v (λ h. answer.1)
          (λ o h. (sym answer.0 ∙ h, answer.1))

-- A method that reads its order first: it ends as the read does, or as the rest does.
module _ {B : Type 0} (R : B → World → Type 0) (E : Error → World → Type 0) (id : ℕ)
    (w : World) where
  pub with_order-Ends :
      (f : Order → Action B)
      → ((e : Error) (v : World) → v.db ≡ w.db → E e v)
      → ((o : Order) (v : World)
          → find (has_id id) w.db.orders ≡ some o
          → v.db ≡ w.db
          → Ends R E (f o v))
      → Ends R E (proceed (get_order id w) f)
  with_order-Ends f fail rest =
      proceed-Ends (λ o v. (find (has_id id) w.db.orders ≡ some o) × (v.db ≡ w.db)) R E _ f
        (Ends-mono (λ o v. (find (has_id id) w.db.orders ≡ some o) × (v.db ≡ w.db))
          (λ e. Same w.db e) (get_order id w) (λ o v h. h) fail (get_order-Found id w))
        (λ o v h. rest o v h.0 h.1)
