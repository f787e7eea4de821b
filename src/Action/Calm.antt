-- ===== src/Action/Calm.antt =====
-- Rules for a world in which no database call fails: statements answer, so calls can be followed.
use w1t.Base.{ℕ, List, [], Bool, ◌≡◌, refl, sym, ap, subst, ◌∙◌, Option, some}
use w1t.Errors.{Error}
use w1t.World.{World, Database}
use w1t.Action.{
  Result, ok, err, Action, proceed, recover, query, answer, fault_or, next_fault, later_faults,
}
use w1t.Action.Rules.{Ends}

abbrev pub IsCalm : World → Type 0
IsCalm w = w.faults ≡ []

abbrev pub Never : Error → World → Type 0
Never e v = ⊥

-- The call succeeds with `Q`, and no later call fails either.
abbrev pub Serves : {A : Type 0} → (A → World → Type 0) → Result A → Type 0
Serves Q = Ends (λ a v. Q a v × IsCalm v) Never

pub query_calm :
    {A : Type 0} (g : ℕ → Database → Option (A × Database)) (w : World)
    → IsCalm w
    → query g w ≡ answer (g w.now w.db) w
unfolding query
query_calm g w calm =
    ap
      (λ (fs : List Bool).
        fault_or (next_fault fs) (g w.now) (record w { faults = later_faults fs }))
      calm
    ∙ ap (λ (fs : List Bool). answer (g w.now w.db) (record w { faults = fs })) (sym calm)

-- A statement that only reads.
pub read_calm :
    {A : Type 0} (f : ℕ → Database → A) (w : World)
    → IsCalm w
    → query (λ now d. some (f now d, d)) w ≡ ok (f w.now w.db) w
read_calm f w calm = query_calm (λ now d. some (f now d, d)) w calm

module _ {A B : Type 0} (P : Result B → Type 0) where
  -- After a call that is known to succeed.
  pub proceed_ok :
      {a : A} {w : World} (r : Result A) (f : A → Action B)
      → r ≡ ok a w
      → P (f a w)
      → P (proceed r f)
  unfolding proceed
  proceed_ok {a} {w} r f e h = subst (λ (s : Result A). P (proceed s f)) (sym e) h

  pub proceed-Serves :
      (Q : A → World → Type 0) (r : Result A) (f : A → Action B)
      → Serves Q r
      → ((a : A) (w : World) → Q a w → IsCalm w → P (f a w))
      → P (proceed r f)
  unfolding proceed
  proceed-Serves Q (ok a w) f h k = k a w h.0 h.1
  proceed-Serves Q (err e w) f h k = absurd h

module _ {A : Type 0} where
  pub recover_ok :
      {a : A} {w : World} (r : Result A) (h : Error → Action A) → r ≡ ok a w → recover r h ≡ ok a w
  unfolding recover
  recover_ok {a} {w} r h e = ap (λ (s : Result A). recover s h) e

  pub recover-Serves :
      (Q : A → World → Type 0) (r : Result A) (h : Error → Action A)
      → Serves Q r
      → Serves Q (recover r h)
  unfolding recover
  recover-Serves Q (ok a w) h k = k
  recover-Serves Q (err e w) h k = absurd k

  pub Serves-mono :
      (Q R : A → World → Type 0) (r : Result A)
      → ((a : A) (w : World) → Q a w → R a w)
      → Serves Q r
      → Serves R r
  Serves-mono Q R (ok a w) k h = (k a w h.0, h.1)
  Serves-mono Q R (err e w) k h = h

  -- The result of a call that cannot fail.
  pub served :
      (Q : A → World → Type 0) (r : Result A)
      → Serves Q r
      → (a : A) × (w : World) × (r ≡ ok a w) × Q a w × IsCalm w
  served Q (ok a w) h = (a, w, refl, h.0, h.1)
  served Q (err e w) h = absurd h
