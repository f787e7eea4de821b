-- ===== src/Orders/Refusals.antt =====
-- How the services refuse where no database call fails: with which sentinel.
use w1t.Base.{ℕ, String, Bool, true, false, ◌≡◌, refl, sym, subst, Option, none, some, arith}
use w1t.Errors.{Error, Sentinel, sentinel, errors_is}
use w1t.World.{World}
use w1t.Action.{Result, err, Action, proceed, recover, found, raise}
use w1t.Action.Rules.{Ends, Same}
use w1t.Action.Calm.{IsCalm, Never, proceed-Serves}
use w1t.Experiments.Rules.{emit_event-Serves}
use w1t.Orders.Service.{checkout_failed, refuse_if}

-- The call is refused with that sentinel, or succeeds where there is none.
abbrev pub Verdict : {A : Type 0} → Option Sentinel → Result A → Type 0
Verdict none = Ends (λ a v. Unit) Never
Verdict (some s) = Ends (λ a v. ⊥) (λ e v. errors_is e s ≡ true)

pub errors_is_self : (s : Sentinel) (m : String) → errors_is (sentinel s m) s ≡ true
unfolding errors_is
errors_is_self s m = ground arith

pub checkout_failed_calm :
    {A : Type 0} (u c : ℕ) (e : Error) (w : World)
    → IsCalm w
    → (v : World) × (checkout_failed {A = A} u c e w ≡ err e v)
checkout_failed_calm u c e w calm =
    proceed-Serves (λ r. (v : World) × (r ≡ err e v)) (Same w.db) _ (λ _. raise e)
      (emit_event-Serves (some u) "checkout_failed" (some c) w calm) (λ a v same k. (v, refl))

module _ {A B : Type 0} (P : Result B → Type 0) where
  pub proceed_err :
      {e : Error} {w : World} (r : Result A) (f : A → Action B)
      → r ≡ err e w
      → P (err e w)
      → P (proceed r f)
  unfolding proceed
  proceed_err {e} {w} r f h k = subst (λ (s : Result A). P (proceed s f)) (sym h) k

module _ {B : Type 0} (P : Result B → Type 0) (u c : ℕ) (w : World) (calm : IsCalm w) where
  -- A check that is reported as an event where it refuses.
  pub refuse_if-cases :
      (b : Bool) (e : Error) (f : Unit {0} → Action B)
      → (b ≡ true → (v : World) → P (err e v))
      → (b ≡ false → P (f tt w))
      → P (proceed (refuse_if b u c e w) f)
  unfolding proceed
  refuse_if-cases true e f h k =
      let (v, failed) = checkout_failed_calm u c e w calm in proceed_err P _ f failed (h refl v)
  refuse_if-cases false e f h k = k refl

  pub found-cases :
      {A : Type 0} (o : Option A) (e : Error) (f : A → Action B)
      → (o ≡ none → (v : World) → P (err e v))
      → ((a : A) → o ≡ some a → P (f a w))
      → P (proceed (recover (found o e w) (checkout_failed u c)) f)
  unfolding proceed recover
  found-cases none e f h k =
      let (v, failed) = checkout_failed_calm u c e w calm in proceed_err P _ f failed (h refl v)
  found-cases (some a) e f h k = k a refl
