-- ===== src/Model/Analytics.antt =====
-- repo/backend/internal/model/abtest.go and analytics.go: experiments and recorded events.
use w1t.Base.{ℕ, String, Bool, Option}

pub data AbTestStatus : Type 0 where
  draft running rolled_back completed : AbTestStatus

pub record AbTest : Type 0 where
  pub id : ℕ
  pub name : String
  pub description : String
  pub status : AbTestStatus
  pub traffic_pct : ℕ
  pub start_date : ℕ
  pub end_date : ℕ
  pub control_variant : String
  pub test_variant : String
  pub rollback_threshold_pct : ℕ
  pub created_by : ℕ
  pub created_at : ℕ
  pub updated_at : ℕ

-- `AnalyticsEvent` as the services fill it, with no metadata; the table sets the time.
pub record AnalyticsEvent : Type 0 where
  pub user_id : Option ℕ
  pub event_type : String
  pub collectible_id : Option ℕ
  pub session_id : String
  pub ab_variant : String
  pub created_at : ℕ

-- `conversion_rate` is `orders` over `views`, and 0 without views.
pub record AbTestResult : Type 0 where
  pub ab_test_id : ℕ
  pub variant : String
  pub views : ℕ
  pub orders : ℕ
  pub computed_at : ℕ

-- The anomaly types that the detector writes.
pub data AnomalyType : Type 0 where
  excessive_cancellations repeated_checkout_failures : AnomalyType

-- `details` is the JSON object of a count and the threshold that it passed.
pub record AnomalyEvent : Type 0 where
  pub id : ℕ
  pub user_id : ℕ
  pub anomaly_type : AnomalyType
  pub details : ℕ × ℕ
  pub acknowledged : Bool
  pub created_at : ℕ
