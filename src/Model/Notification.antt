-- ===== src/Model/Notification.antt =====
-- repo/backend/internal/model/notification.go
use w1t.Base.{ℕ, String, Bool, List, Option}

-- `Notification.Status`, one of four by a CHECK of the table.
pub data NotificationStatus : Type 0 where
  pending delivered failed permanently_failed : NotificationStatus

-- The parameters of a template, a Go `map[string]string`, before they are marshalled.
abbrev pub Params : Type 0
Params = List (String × String)

pub record NotificationTemplate : Type 0 where
  pub id : ℕ
  pub slug : String
  pub title_template : String
  pub body_template : String

pub record Notification : Type 0 where
  pub id : ℕ
  pub user_id : ℕ
  pub template_id : ℕ
  pub params : Params
  pub rendered_title : String
  pub rendered_body : String
  pub is_read : Bool
  pub status : NotificationStatus
  pub retry_count : ℕ
  pub max_retries : ℕ
  pub next_retry_at : Option ℕ
  pub delivered_at : Option ℕ
  pub created_at : ℕ

-- `Preferences` is the decoded JSON object; `subscription_mode` is kept as text.
pub record NotificationPreferences : Type 0 where
  pub user_id : ℕ
  pub preferences : List (String × Bool)
  pub subscription_mode : String
