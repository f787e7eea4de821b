-- ===== src/Experiments/Tests.antt =====
-- One experiment, its events, and a run of the evaluator.
use w1t.Base.{
  true, false, ◌*◌, ℕ, zero, suc, String, ◌≡◌, refl, List, [], ◌∷◌, ◌++◌, none, some, arith, str_eq,
  map,
}
use w1t.Model.Analytics.{AbTest, running, rolled_back, AnalyticsEvent}
use w1t.World.{World}
use w1t.Action.{world_of, query, proceed, recover}
use w1t.Action.Rules.{Ends}
use w1t.Action.Calm.{Never}
use w1t.Samples.{empty_tables, at_rest}
use w1t.Experiments.{list_running_ab_tests}
use w1t.Experiments.Store.{get_ab_test_conversion, save_ab_test_result, update_ab_test_status}
use w1t.Experiments.Registry.{validate_experiment, unknown_experiment, unknown_test, same_variants}
use w1t.Base.Float.{float64, quotient, difference, product, round}
use w1t.Experiments.Evaluator.{
  rate, relative_drop, drops_by, evaluate_test, evaluate_all, evaluator_job,
}
use w1t.Experiments.Judgement.{Moves, evaluate_test-Moves}
use w1t.Experiments.Lifecycle.{Numbered, Grows}
use w1t.Experiments.History.{evaluates, run, here, next, serve, tests_only_end}

abbrev layout : AbTest
layout = record {
  id = 9;
  name = "catalog_layout";
  description = "";
  status = running;
  traffic_pct = 50;
  start_date = 1000;
  end_date = 9000;
  control_variant = "grid";
  test_variant = "list";
  rollback_threshold_pct = 20;
  created_by = 1;
  created_at = 1000;
  updated_at = 1000;
}

abbrev event : String → String → AnalyticsEvent
event type variant = record {
  user_id = some 3;
  event_type = type;
  collectible_id = none;
  session_id = "server";
  ab_variant = variant;
  created_at = 2000;
}

abbrev repeat : ℕ → AnalyticsEvent → List AnalyticsEvent
repeat zero e = []
repeat (suc n) e = e ∷ repeat n e

-- The new layout sells a fifth of what the old one does.
abbrev trial : World
trial = at_rest record empty_tables {
  ab_tests = layout ∷ [];
  events =
      repeat 100 (event "item_view" "catalog_layout:grid")
      ++ (repeat 50 (event "order_created" "catalog_layout:grid")
          ++ (repeat 100 (event "item_view" "catalog_layout:list")
              ++ repeat 10 (event "order_created" "catalog_layout:list")));
}

rolls_back_trial :
    map (λ (t : AbTest). t.status) (world_of (evaluator_job trial)).db.ab_tests ≡ rolled_back ∷ []
unfolding evaluator_job list_running_ab_tests evaluate_all evaluate_test get_ab_test_conversion
    save_ab_test_result update_ab_test_status query proceed recover str_eq rate quotient round
    float64 relative_drop product difference
rolls_back_trial = refl

evaluate_test-Moves_example :
    Ends (λ a v. Moves layout trial v.db) Never (evaluate_test layout trial)
evaluate_test-Moves_example = evaluate_test-Moves layout trial

tests_only_end_example :
    Numbered (run (λ l s. none) evaluates trial).db
    × Grows trial.db.ab_tests (run (λ l s. none) evaluates trial).db.ab_tests
tests_only_end_example =
    tests_only_end (λ l s. none) (next here (serve evaluates))
      (record { below = (omega arith, tt); distinct = (tt, tt) })

registered : validate_experiment "checkout_flow" "standard" "express" ≡ none
unfolding validate_experiment str_eq
registered = refl

unregistered :
    (validate_experiment "colour" "a" "b" ≡ some unknown_experiment)
    × (validate_experiment "checkout_flow" "standard" "fast" ≡ some unknown_test)
    × (validate_experiment "checkout_flow" "express" "express" ≡ some same_variants)
unfolding validate_experiment str_eq
unregistered = (refl, refl, refl)

-- Drops of 20 per cent: 5 and 4 orders of 100 views give 20.000000000000004 in floats, 50 and 40 give
-- 19.999999999999996, and 33 of 110 and 24 of 100 give 20.
drops_at_threshold :
    (drops_by 20 (100, 5) (100, 4) ≡ true)
    × (drops_by 20 (100, 50) (100, 40) ≡ false)
    × (drops_by 20 (110, 33) (100, 24) ≡ false)
unfolding rate relative_drop float64 quotient difference product round
drops_at_threshold = (refl, refl, refl)

-- 100 of 300 and 200 of 700: the drop is 14.285714285714285, to the last bit.
drop_of_a_seventh :
    (relative_drop (rate (300, 100)) (rate (700, 200))).0 * 140737488355328
    ≡ 2010535547933257 * (relative_drop (rate (300, 100)) (rate (700, 200))).1
unfolding rate relative_drop float64 quotient difference product round
drop_of_a_seventh = refl
