-- ===== src/Action/Frame.antt =====
-- Calls leave the cache and the configuration alone: rules that say so of statements.
use w1t.Base.{ℕ, Bool, true, false, ◌≡◌, refl, Option, none, some}
use w1t.World.{World, Database}
use w1t.Action.{query, answer, fault_or, next_fault, later_faults}
use w1t.Action.Rules.{Ends}

-- `v` has the configuration, the tables and the cache of `w`.
pub record Frame (w v : World) : Type 0 where
  pub env : v.env ≡ w.env
  pub db : v.db ≡ w.db
  pub cache : v.cache ≡ w.cache

pub Frame-refl : (w : World) → Frame w w
Frame-refl w = record { env = refl; db = refl; cache = refl }

-- A statement answered and changed the tables.
pub record Answered {A : Type 0} (g : ℕ → Database → Option (A × Database)) (w : World) (a : A)
    (v : World) : Type 0 where
  pub answer : g w.now w.db ≡ some (a, v.db)
  pub env : v.env ≡ w.env
  pub cache : v.cache ≡ w.cache

module _ {A : Type 0} (g : ℕ → Database → Option (A × Database)) where
  pub query-Answered : (w : World) → Ends (Answered g w) (λ e v. Frame w v) (query g w)
  unfolding query
  query-Answered w = by_fault (next_fault w.faults)
    where
      by_fault :
          (b : Bool)
          → Ends
              (Answered g w)
              (λ e v. Frame w v)
              (fault_or b (g w.now) (record w { faults = later_faults w.faults }))
      by_fault true = record { env = refl; db = refl; cache = refl }
      by_fault false = by_answer (g w.now w.db) refl
        where
          by_answer :
              (r : Option (A × Database))
              → g w.now w.db ≡ r
              → Ends
                  (Answered g w)
                  (λ e v. Frame w v)
                  (answer r (record w { faults = later_faults w.faults }))
          by_answer none h = record { env = refl; db = refl; cache = refl }
          by_answer (some (a, d)) h = record { answer = h; env = refl; cache = refl }

module _ {A : Type 0} (f : ℕ → Database → A) where
  -- A read answers from the tables, or fails; both leave the frame.
  pub read-Frame :
      (w : World)
      → Ends
          (λ a v. (a ≡ f w.now w.db) × Frame w v)
          (λ e v. Frame w v)
          (query (λ now d. some (f now d, d)) w)
  unfolding query
  read-Frame w = by_fault (next_fault w.faults)
    where
      by_fault :
          (b : Bool)
          → Ends
              (λ a v. (a ≡ f w.now w.db) × Frame w v)
              (λ e v. Frame w v)
              (fault_or b (λ d. some (f w.now d, d)) (record w { faults = later_faults w.faults }))
      by_fault true = record { env = refl; db = refl; cache = refl }
      by_fault false = (refl, record { env = refl; db = refl; cache = refl })
