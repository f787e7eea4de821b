-- ===== src/Anomalies.antt =====
-- repo/backend/internal/worker/anomaly_detector.go: one run of the job.
pub mod Store
pub mod Detection
pub mod Rounds
pub mod Reference
pub mod Outcome
mod Tests
use w1t.Base.{ℕ, Bool, true, false, List, [], ◌∷◌, ltb, if◌then◌else◌}
use w1t.Model.Analytics.{
  AnomalyType, excessive_cancellations, repeated_checkout_failures, AnomalyEvent,
}
use w1t.Action.{Action, pure, ◌>>=◌, ◌>>◌, attempt, in_context}
use w1t.Orders.Store.{count_by_status, count_cancelled_in_period}
use w1t.Anomalies.Store.{
  get_distinct_users_with_events, count_checkout_failures, create_anomaly_event,
}

abbrev pub max_cancellations : ℕ
max_cancellations = 6

abbrev pub max_checkout_failures : ℕ
max_checkout_failures = 10

abbrev pub new_anomaly : ℕ → AnomalyType → ℕ → ℕ → AnomalyEvent
new_anomaly user kind n limit = record {
  id = 0;
  user_id = user;
  anomaly_type = kind;
  details = (n, limit);
  acknowledged = false;
  created_at = 0;
}

-- `if count > limit { … }`
abbrev pub flag : AnomalyType → ℕ → ℕ → ℕ → Action (Unit {0})
flag kind limit user n =
    if ltb limit n then create_anomaly_event (new_anomaly user kind n limit) else pure tt

-- The body of a loop: a user who cannot be counted is left out, and an anomaly that cannot be stored is
-- logged.
unfoldable pub check_user : AnomalyType → ℕ → (ℕ → Action ℕ) → ℕ → Action (Unit {0})
check_user kind limit count user = attempt (do n ← count user; flag kind limit user n)

unfoldable pub check_users : AnomalyType → ℕ → (ℕ → Action ℕ) → List ℕ → Action (Unit {0})
check_users kind limit count [] = pure tt
check_users kind limit count (u ∷ us) = do
  check_user kind limit count u
  check_users kind limit count us

-- `detectExcessiveCancellations`
unfoldable pub detect_excessive_cancellations : Action (Unit {0})
detect_excessive_cancellations = do
  rows ← count_by_status
  users ←
      in_context "get users with cancellations"
        (get_distinct_users_with_events "order_cancelled" 24)
  check_users excessive_cancellations max_cancellations (λ user. count_cancelled_in_period user 24)
      users

-- `detectCheckoutFailures`
unfoldable pub detect_checkout_failures : Action (Unit {0})
detect_checkout_failures = do
  users ←
      in_context "get users with checkout failures"
        (get_distinct_users_with_events "checkout_failed" 1)
  check_users repeated_checkout_failures max_checkout_failures
      (λ user. count_checkout_failures user 1) users

-- `AnomalyDetectorJob`
unfoldable pub anomaly_detector_job : Action (Unit {0})
anomaly_detector_job = do attempt detect_excessive_cancellations; attempt detect_checkout_failures
