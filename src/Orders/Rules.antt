-- ===== src/Orders/Rules.antt =====
-- Rules for the shapes that internal/service/order_service.go repeats: a refusal that is reported
-- as an event, and a store call whose failure is.
use w1t.Base.{ℕ, String, Bool, true, false, ◌≡◌, refl, subst, sym, Option, none, some}
use w1t.Errors.{Error, wrapped}
use w1t.World.{World, Database}
use w1t.Action.{Result, recover}
use w1t.Action.Rules.{Ends, Same, proceed-Ends, recover-Ends}
use w1t.Experiments.Rules.{emit_event-Ends}
use w1t.Orders.Service.{checkout_failed, refuse_if, emit_if_some}

module _ {A : Type 0} (P : Database → Type 0) (Q : A → World → Type 0) where
  pub checkout_failed-Ends :
      (u c : ℕ) (e : Error) (w : World) → P w.db → Ends Q (λ e v. P v.db) (checkout_failed u c e w)
  checkout_failed-Ends u c e w h =
      proceed-Ends (Same w.db) Q (λ e v. P v.db) _ _
        (emit_event-Ends _ (some u) "checkout_failed" (some c) w) (λ a v k. subst P (sym k) h)

  pub or_checkout_failed-Ends :
      (u c : ℕ) (context : String) (r : Result A)
      → Ends Q (λ e v. P v.db) r
      → Ends Q (λ e v. P v.db) (recover r (λ e. checkout_failed u c (wrapped context e)))
  or_checkout_failed-Ends u c context r h =
      recover-Ends Q (λ e v. P v.db) (λ e v. P v.db) r _ h
        (λ e v k. checkout_failed-Ends u c (wrapped context e) v k)

module _ (P : Database → Type 0) (Q : Unit {0} → World → Type 0) where
  pub refuse_if-Ends :
      (b : Bool) (u c : ℕ) (e : Error) (w : World)
      → P w.db
      → (b ≡ false → Q tt w)
      → Ends Q (λ e v. P v.db) (refuse_if b u c e w)
  refuse_if-Ends true u c e w h k = checkout_failed-Ends P Q u c e w h
  refuse_if-Ends false u c e w h k = k refl

pub emit_if_some-Ends :
    (E : Error → World → Type 0) (event : Option String) (u c : ℕ) (w : World)
    → Ends (Same w.db) E (emit_if_some event u c w)
emit_if_some-Ends E none u c w = refl
emit_if_some-Ends E (some event) u c w = emit_event-Ends E (some u) event (some c) w
