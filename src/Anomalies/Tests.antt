-- ===== src/Anomalies/Tests.antt =====
-- A user whose checkout failed eleven times within the hour.
use w1t.Base.{ℕ, zero, suc, ◌≡◌, refl, List, [], ◌∷◌, some, length, str_eq}
use w1t.Model.Analytics.{AnalyticsEvent}
use w1t.World.{Database}
use w1t.Action.{world_of, proceed, recover, query}
use w1t.Action.Rules.{Ends}
use w1t.Action.Calm.{Never}
use w1t.Samples.{empty_tables, at_rest}
use w1t.Orders.Store.{count_by_status, count_cancelled_in_period}
use w1t.Anomalies.Store.{
  get_distinct_users_with_events, count_checkout_failures, create_anomaly_event,
}
use w1t.Anomalies.{
  check_user, check_users, detect_excessive_cancellations, detect_checkout_failures,
  anomaly_detector_job,
}
use w1t.Anomalies.Outcome.{Flags, anomaly_detector_job-Flags}

abbrev failure : AnalyticsEvent
failure = record {
  user_id = some 2;
  event_type = "checkout_failed";
  collectible_id = some 3;
  session_id = "";
  ab_variant = "";
  created_at = 4000;
}

abbrev failures : ℕ → List AnalyticsEvent
failures zero = []
failures (suc n) = failure ∷ failures n

abbrev with_failures : ℕ → Database
with_failures n = record empty_tables { events = failures n }

abbrev flagged : ℕ → ℕ
flagged n = length (world_of (anomaly_detector_job (at_rest (with_failures n)))).db.anomalies

eleven : flagged 11 ≡ 1
unfolding str_eq anomaly_detector_job detect_excessive_cancellations detect_checkout_failures
    check_users check_user get_distinct_users_with_events count_checkout_failures
    create_anomaly_event count_by_status count_cancelled_in_period proceed recover query
eleven = refl

ten : flagged 10 ≡ 0
unfolding str_eq anomaly_detector_job detect_excessive_cancellations detect_checkout_failures
    check_users check_user get_distinct_users_with_events count_checkout_failures
    create_anomaly_event count_by_status count_cancelled_in_period proceed recover query
ten = refl

anomaly_detector_job-Flags_example :
    Ends
      (λ a v. Flags (at_rest (with_failures 11)) v)
      Never
      (anomaly_detector_job (at_rest (with_failures 11)))
anomaly_detector_job-Flags_example = anomaly_detector_job-Flags (at_rest (with_failures 11))
