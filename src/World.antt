-- ===== src/World.antt =====
-- What a request of the backend runs in: the PostgreSQL tables that the stores of
-- repo/backend/internal/store read and write, the clock, the failures of database calls, the
-- goroutines that the services start, and the functions of third-party packages.
use w1t.Base.{ℕ, String, Bool, List, Option}
use w1t.Cache.{HotCache}
use w1t.Model.Order.{Order, OrderStateTransition}
use w1t.Model.Collectible.{Collectible, CollectibleTxHistory}
use w1t.Crypto.{Aead}
use w1t.Model.Analytics.{AbTest, AnalyticsEvent, AbTestResult, AnomalyEvent}
use w1t.Model.Message.{Message, MessageAttachment}
use w1t.Model.Notification.{Notification, NotificationTemplate, NotificationPreferences, Params}
use w1t.Model.User.{User, Role, UserRole, RefreshToken, LoginAttempt}

-- The code that is not in the repository, and how the services were wired up:
-- `uuid.UUID.String`, `bcrypt.CompareHashAndPassword` and `GenerateFromPassword`, the cipher of
-- `AESEncryptor`, SQL's `LIKE`, `sha256.Sum256`, the signed JWT of a user with roles
-- until a time, the CSRF token of a random number, and whether the optional stores of a
-- service are set.
pub record Env : Type 0 where
  pub uuid_string : ℕ → String
  pub check_password : String → String → Bool
  pub hash_password : String → Option String
  pub aead : Aead
  pub sql_like : String → String → Bool
  pub sha256 : String → String
  pub sign_token : String → List String → ℕ → String
  pub csrf_token : ℕ → String
  pub has_analytics : Bool
  pub has_notifications : Bool

-- A table is the list of its rows, oldest first. `next_id` is the next value of
-- `gen_random_uuid()`, which never repeats.
pub record Database : Type 0 where
  pub next_id : ℕ
  pub orders : List Order
  pub transitions : List OrderStateTransition
  pub collectibles : List Collectible
  pub tx_history : List CollectibleTxHistory
  pub ab_tests : List AbTest
  pub events : List AnalyticsEvent
  pub ab_test_results : List AbTestResult
  pub anomalies : List AnomalyEvent
  pub messages : List Message
  pub attachments : List MessageAttachment
  pub templates : List NotificationTemplate
  pub notifications : List Notification
  pub preferences : List NotificationPreferences
  pub users : List User
  pub roles : List Role
  pub user_roles : List UserRole
  pub refresh_tokens : List RefreshToken
  pub login_attempts : List LoginAttempt

-- A goroutine that a service has started and that has not run yet.
pub data Task : Type 0 where
  record_event : AnalyticsEvent → Task
  send_notification : ℕ → String → Params → Task
  increment_view_count : ℕ → Task

-- What the services keep in the cache: a collectible, or a page of them with the total.
pub data Cached : Type 0 where
  item : Collectible → Cached
  listing : List Collectible → ℕ → Cached

-- `now` stands still within one request. Each database call takes one entry off `faults`, and
-- fails where that is `true`; after the last entry no call fails. `tasks` has the newest last.
pub record World : Type 0 where
  pub env : Env
  pub now : ℕ
  pub faults : List Bool
  pub db : Database
  pub cache : HotCache Cached
  pub tasks : List Task
