-- ===== src/Experiments/Evaluator.antt =====
-- repo/backend/internal/worker/abtest_evaluator.go: one run of the job.
use w1t.Base.Float.{Float64, float64, quotient, difference, product, exceeds}
use w1t.Base.{ℕ, String, Bool, ◌&&◌, ◌||◌, List, [], ◌∷◌, ltb, if◌then◌else◌}
use w1t.Model.Analytics.{AbTest, rolled_back, completed, AbTestResult}
use w1t.Action.{Action, pure, reading, ◌>>=◌, ◌>>◌, attempt}
use w1t.Experiments.{list_running_ab_tests}
use w1t.Experiments.Store.{get_ab_test_conversion, save_ab_test_result, update_ab_test_status}

abbrev pub min_sample_size : ℕ
min_sample_size = 100

-- `controlRate` and `testRate`, of views and orders.
unfoldable pub rate : ℕ × ℕ → Float64
rate (views, orders) = if ltb 0 views then quotient (float64 orders) (float64 views) else (0, 1)

-- `relativeDrop`, or 0 where it is negative.
unfoldable pub relative_drop : Float64 → Float64 → Float64
relative_drop control_rate test_rate =
    product (quotient (difference control_rate test_rate) control_rate) (100, 1)

-- `controlRate > 0` and `relativeDrop > float64(test.RollbackThresholdPct)`; no threshold is negative.
abbrev pub drops_by : ℕ → ℕ × ℕ → ℕ × ℕ → Bool
drops_by threshold control test =
    exceeds (rate control) (0, 1)
    && exceeds (relative_drop (rate control) (rate test)) (float64 threshold)

abbrev pub too_few : ℕ × ℕ → ℕ × ℕ → Bool
too_few (control_views, control_orders) (test_views, test_orders) =
    ltb control_views min_sample_size || ltb test_views min_sample_size

abbrev pub judge : AbTest → ℕ × ℕ → ℕ × ℕ → Action (Unit {0})
judge t control test =
    if too_few control test
    then pure tt
    else if drops_by t.rollback_threshold_pct control test
    then attempt (update_ab_test_status t.id rolled_back)
    else pure tt

abbrev pub result_of : AbTest → String → ℕ × ℕ → AbTestResult
result_of t variant (views, orders) = record {
  ab_test_id = t.id;
  variant = variant;
  views = views;
  orders = orders;
  computed_at = 0;
}

-- A test that has not ended; where a conversion cannot be had, the job goes on to the next test.
abbrev pub evaluate_running : AbTest → Action (Unit {0})
evaluate_running t = attempt (do
  control ← get_ab_test_conversion t.name t.control_variant
  test ← get_ab_test_conversion t.name t.test_variant
  attempt (save_ab_test_result (result_of t t.control_variant control))
  attempt (save_ab_test_result (result_of t t.test_variant test))
  judge t control test)

-- The body of the loop.
unfoldable pub evaluate_test : AbTest → Action (Unit {0})
evaluate_test t = reading λ w.
    if ltb t.end_date w.now
    then attempt (update_ab_test_status t.id completed)
    else evaluate_running t

unfoldable pub evaluate_all : List AbTest → Action (Unit {0})
evaluate_all [] = pure tt
evaluate_all (t ∷ ts) = do evaluate_test t; evaluate_all ts

-- `ABTestEvaluatorJob`
unfoldable pub evaluator_job : Action (Unit {0})
evaluator_job = do tests ← list_running_ab_tests; evaluate_all tests
