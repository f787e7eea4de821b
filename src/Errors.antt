-- ===== src/Errors.antt =====
-- repo/backend/internal/dto/errors.go: the sentinel errors, how a Go error wraps them, and the
-- response that internal/handler/helpers.go makes of an error.
use w1t.Base.{ℕ, String, Bool, false, ◌==◌, if◌then◌else◌}

-- `dto.Err…`
pub data Sentinel : Type 0 where
  not_found forbidden unauthorized conflict rate_limited validation account_locked : Sentinel
  invalid_credentials attachment_too_large duplicate_order invalid_transition oversold : Sentinel

-- What the database answers when a statement fails: a unique index is violated, or anything else
-- (connection lost, time out, a foreign key, a CHECK).
pub data StoreError : Type 0 where
  duplicate_key unavailable : StoreError

-- `sentinel s m` is `fmt.Errorf("%w: m", s)`, and `s` itself where `m` is empty;
-- `wrapped c e` is `fmt.Errorf("c: %w", e)`; `plain m` is `fmt.Errorf(m)`.
pub data Error : Type 0 where
  sentinel : Sentinel → String → Error
  store : StoreError → Error
  wrapped : String → Error → Error
  plain : String → Error

abbrev tag : Sentinel → ℕ
tag not_found = 0
tag forbidden = 1
tag unauthorized = 2
tag conflict = 3
tag rate_limited = 4
tag validation = 5
tag account_locked = 6
tag invalid_credentials = 7
tag attachment_too_large = 8
tag duplicate_order = 9
tag invalid_transition = 10
tag oversold = 11

-- `errors.Is`
unfoldable pub errors_is : Error → Sentinel → Bool
errors_is (sentinel s m) t = tag s == tag t
errors_is (wrapped c e) t = errors_is e t
errors_is (store e) t = false
errors_is (plain m) t = false

-- An HTTP status with the `code` of the error body.
pub record Response : Type 0 where
  pub status : ℕ
  pub code : String

-- `mapError`
unfoldable pub map_error : Error → Response
unfolding errors_is
map_error e =
    if errors_is e not_found
    then record { status = 404; code = "ERR_NOT_FOUND" }
    else if errors_is e forbidden
    then record { status = 403; code = "ERR_FORBIDDEN" }
    else if errors_is e unauthorized
    then record { status = 401; code = "ERR_UNAUTHORIZED" }
    else if errors_is e conflict
    then record { status = 409; code = "ERR_CONFLICT" }
    else if errors_is e rate_limited
    then record { status = 429; code = "ERR_RATE_LIMITED" }
    else if errors_is e validation
    then record { status = 422; code = "ERR_VALIDATION" }
    else if errors_is e account_locked
    then record { status = 423; code = "ERR_ACCOUNT_LOCKED" }
    else if errors_is e invalid_credentials
    then record { status = 401; code = "ERR_INVALID_CREDENTIALS" }
    else if errors_is e attachment_too_large
    then record { status = 413; code = "ERR_ATTACHMENT_TOO_LARGE" }
    else if errors_is e duplicate_order
    then record { status = 409; code = "ERR_ORDER_DUPLICATE" }
    else if errors_is e invalid_transition
    then record { status = 422; code = "ERR_INVALID_TRANSITION" }
    else if errors_is e oversold
    then record { status = 409; code = "ERR_OVERSOLD" }
    else record { status = 500; code = "ERR_INTERNAL" }
