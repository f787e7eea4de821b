-- ===== src/Experiments/History.antt =====
-- Histories of the experiments: methods and runs of the evaluator one after another, with anything else
-- that leaves their table alone between them.
use w1t.Base.{ℕ, ◌≤◌, ◌<◌, String, ◌≡◌, refl, sym, subst, inl, inr, Option, arith, All, All-map}
use w1t.Base.Keyed.{DistinctBy}
use w1t.Model.Analytics.{AbTest, rolled_back, completed}
use w1t.World.{World, Database}
use w1t.Action.{Result, ok, err, world_of}
use w1t.Action.Rules.{Ends}
use w1t.Experiments.Service.{
  CreateAbTestRequest, UpdateAbTestRequest, create, update_test, rollback, complete,
}
use w1t.Experiments.Evaluator.{evaluator_job}
use w1t.Experiments.Lifecycle.{Numbered, Sound, Sound-trans, Grows, Grows-refl, id_of, same-Sound}
use w1t.Experiments.Upkeep.{Kept, create-Kept, update_test-Kept, end_test-Kept}
use w1t.Experiments.Rounds.{evaluator_job-Kept}

module _ (time_parse : String → String → Option ℕ) where
  pub data Request : Type 0 where
    creates : CreateAbTestRequest → ℕ → Request
    updates : ℕ → UpdateAbTestRequest → Request
    rolls_back : ℕ → Request
    completes : ℕ → Request
    evaluates : Request

  -- The world that it leaves, however it ends.
  unfoldable pub run : Request → World → World
  run (creates req by) w = world_of (create time_parse req by w)
  run (updates id req) w = world_of (update_test time_parse id req w)
  run (rolls_back id) w = world_of (rollback id w)
  run (completes id) w = world_of (complete id w)
  run evaluates w = world_of (evaluator_job w)

  kept :
      {A : Type 0} (w : World) (r : Result A)
      → Ends (Kept w) (Kept w) r
      → Sound w.db (world_of r).db
  kept w (ok a v) h = h
  kept w (err e v) h = h

  evaluated :
      (w : World) (r : Result (Unit {0}))
      → Ends (Kept w) (λ e v. v.db ≡ w.db) r
      → Sound w.db (world_of r).db
  evaluated w (ok a v) h = h
  evaluated w (err e v) h = subst (λ d. Sound w.db d) (sym h) (same-Sound w.db w.db refl refl)

  run-Sound : (r : Request) (w : World) → Sound w.db (run r w).db
  unfolding run rollback complete
  run-Sound (creates req by) w = kept w _ (create-Kept time_parse req by w)
  run-Sound (updates id req) w = kept w _ (update_test-Kept time_parse id req w)
  run-Sound (rolls_back id) w = kept w _ (end_test-Kept rolled_back (inl refl) id w)
  run-Sound (completes id) w = kept w _ (end_test-Kept completed (inr refl) id w)
  run-Sound evaluates w = λ n. evaluated w _ (evaluator_job-Kept w n) n

  -- A request or a run that is served whole, or anything that leaves the experiments alone.
  pub data Step (w : World) : World → Type 0 where
    serve : (r : Request) → Step w (run r w)
    elapse : (v : World) → v.db.ab_tests ≡ w.db.ab_tests → w.db.next_id ≤ v.db.next_id → Step w v

  pub data Reach (w : World) : World → Type 0 where
    here : Reach w w
    next : {v u : World} → Reach w v → Step v u → Reach w u

  elapse-Sound : (d d' : Database) → d'.ab_tests ≡ d.ab_tests → d.next_id ≤ d'.next_id → Sound d d'
  elapse-Sound d d' e le n = (
    record {
      below =
          subst (λ ts. All (λ (t : AbTest). t.id < d'.next_id) ts) (sym e)
            (All-map _ _ d.ab_tests (λ t lt. omega arith) n.below);
      distinct = subst (λ ts. DistinctBy id_of ts) (sym e) n.distinct;
    },
    subst (λ ts. Grows d.ab_tests ts) (sym e) (Grows-refl d.ab_tests),
  )

  Step-Sound : {w v : World} → Step w v → Sound w.db v.db
  Step-Sound {w} (serve r) = run-Sound r w
  Step-Sound {w} (elapse v e le) = elapse-Sound w.db v.db e le

  -- After any history, whatever calls fail in it, where ids are below the next one and distinct: no test
  -- is lost, its name, variants, start date and creator never change, and its status stays or goes from
  -- running to rolled back or completed. So a draft is never run, and a test that has ended
  -- stays so.
  pub tests_only_end :
      {w v : World} → Reach w v → Numbered w.db → Numbered v.db × Grows w.db.ab_tests v.db.ab_tests
  tests_only_end {w} here n = same-Sound w.db w.db refl refl n
  tests_only_end {w} (next {v} {u} r s) n =
      Sound-trans {d = w.db} {e = v.db} {f = u.db} (tests_only_end r) (Step-Sound s) n
