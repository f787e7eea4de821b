-- ===== src/Action/Steady.antt =====
-- Calls leave the clock and the configuration alone: rules that say so of statements.
use w1t.Base.{ℕ, Bool, true, false, ◌≡◌, refl, ◌∙◌, Option, none, some}
use w1t.World.{World, Database}
use w1t.Action.{Result, ok, err, Action, query, answer, fault_or, next_fault, later_faults, proceed}
use w1t.Action.Rules.{Ends}

-- `v` has the clock and the configuration of `w`.
pub record Steady (w v : World) : Type 0 where
  pub now : v.now ≡ w.now
  pub env : v.env ≡ w.env

-- And its tables: at most calls that fail and goroutines that start are different.
pub record Settled (w v : World) : Type 0 where
  pub db : v.db ≡ w.db
  pub now : v.now ≡ w.now
  pub env : v.env ≡ w.env

pub Settled-refl : (w : World) → Settled w w
Settled-refl w = record { db = refl; now = refl; env = refl }

pub Settled-trans : {u v w : World} → Settled u v → Settled v w → Settled u w
Settled-trans h k = record { db = k.db ∙ h.db; now = k.now ∙ h.now; env = k.env ∙ h.env }

abbrev pub Any : {A : Type 0} → A → World → Type 0
Any a v = Unit

pub Any-Ends : {A : Type 0} (r : Result A) → Ends Any Any r
Any-Ends (ok a v) = tt
Any-Ends (err e v) = tt

module _ {A : Type 0} (f : ℕ → Database → A) where
  -- A read answers from the tables, or fails; both leave the world settled.
  pub read-Settled :
      (w : World)
      → Ends
          (λ a v. (a ≡ f w.now w.db) × Settled w v)
          (λ e v. Settled w v)
          (query (λ now d. some (f now d, d)) w)
  unfolding query
  read-Settled w = by_fault (next_fault w.faults)
    where
      by_fault :
          (b : Bool)
          → Ends
              (λ a v. (a ≡ f w.now w.db) × Settled w v)
              (λ e v. Settled w v)
              (fault_or b (λ d. some (f w.now d, d)) (record w { faults = later_faults w.faults }))
      by_fault true = record { db = refl; now = refl; env = refl }
      by_fault false = (refl, record { db = refl; now = refl; env = refl })

module _ {A : Type 0} (g : ℕ → Database → Option (A × Database)) where
  answer-Steady :
      (r : Option (A × Database)) (w : World)
      → Ends (λ a v. (r ≡ some (a, v.db)) × Steady w v) (λ e v. Settled w v) (answer r w)
  answer-Steady none w = record { db = refl; now = refl; env = refl }
  answer-Steady (some (a, d)) w = (refl, record { now = refl; env = refl })

  -- A statement answers and changes the tables, or fails and leaves the world settled.
  pub query-Steady :
      (w : World)
      → Ends (λ a v. (g w.now w.db ≡ some (a, v.db)) × Steady w v) (λ e v. Settled w v) (query g w)
  unfolding query
  query-Steady w = by_fault (next_fault w.faults)
    where
      by_fault :
          (b : Bool)
          → Ends
              (λ a v. (g w.now w.db ≡ some (a, v.db)) × Steady w v)
              (λ e v. Settled w v)
              (fault_or b (g w.now) (record w { faults = later_faults w.faults }))
      by_fault true = record { db = refl; now = refl; env = refl }
      by_fault false = by_answer (g w.now w.db)
        where
          by_answer :
              (r : Option (A × Database))
              → Ends
                  (λ a v. (r ≡ some (a, v.db)) × Steady w v)
                  (λ e v. Settled w v)
                  (answer r (record w { faults = later_faults w.faults }))
          by_answer none = record { db = refl; now = refl; env = refl }
          by_answer (some (a, d)) = (refl, record { now = refl; env = refl })

-- A call of which nothing needs to be known.
pub skip-Ends :
    {A B : Type 0} (R : B → World → Type 0) (r : Result A) (f : A → Action B)
    → ((a : A) (v : World) → Ends R Any (f a v))
    → Ends R Any (proceed r f)
unfolding proceed
skip-Ends R (ok a v) f k = k a v
skip-Ends R (err e v) f k = tt
