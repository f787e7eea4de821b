-- ===== src/Auth/Service.antt =====
-- repo/backend/internal/service/auth_service.go
use w1t.Base.{
  ℕ, suc, ◌+◌, String, Bool, true, false, List, [], ◌∷◌, map, Option, none, some, ltb, leb,
}
use w1t.Errors.{sentinel, account_locked, invalid_credentials, unauthorized}
use w1t.Model.User.{User, UserRole, RefreshToken}
use w1t.Action.{
  ok, Action, pure, raise, ◌>>=◌, ◌>>◌, catch, in_context, attempt, fail_if, found, reading,
}
use w1t.Auth.Store.{
  get_by_id, get_by_username, lock_account, unlock_account, reset_failed_login,
  record_failed_attempt, count_recent_failures_by_user, count_recent_failures_by_ip,
  clear_failed_attempts, get_user_roles, create_refresh_token, get_refresh_token_by_hash,
  revoke_refresh_token, revoke_refresh_token_family, revoke_all_user_tokens,
}

-- The thresholds, in failures and in seconds.
abbrev pub max_user_failures : ℕ
max_user_failures = 5

abbrev pub max_ip_failures : ℕ
max_ip_failures = 20

abbrev pub failure_window : ℕ
failure_window = 900

abbrev pub lockout_duration : ℕ
lockout_duration = 1800

abbrev pub token_lifetime : ℕ
token_lifetime = 604800

-- `http.Cookie`; a cookie without `max_age` is one with `MaxAge: -1`, which deletes it.
pub record Cookie : Type 0 where
  pub name : String
  pub value : String
  pub path : String
  pub http_only : Bool
  pub max_age : Option ℕ

-- `dto.AuthResponse`
pub record AuthResponse : Type 0 where
  pub user : User
  pub roles : List String

-- `uuid.New()`
unfoldable pub new_uuid : Action ℕ
new_uuid w = ok w.db.next_id record w { db = record w.db { next_id = suc w.db.next_id } }

abbrev pub role_names : List UserRole → List String
role_names rs = map (λ (r : UserRole). r.role_name) rs

abbrev pub session_cookies : String → String → String → List Cookie
session_cookies access refresh csrf =
    record {
      name = "access_token";
      value = access;
      path = "/";
      http_only = true;
      max_age = some 900;
    }
    ∷ record {
      name = "refresh_token";
      value = refresh;
      path = "/api/auth";
      http_only = true;
      max_age = some token_lifetime;
    }
    ∷ record {
      name = "csrf_token";
      value = csrf;
      path = "/";
      http_only = false;
      max_age = some token_lifetime;
    }
    ∷ []

-- `lockUntil := time.Now().Add(lockoutDuration)` and `LockAccount`
abbrev pub lock_now : ℕ → Action (Unit {0})
lock_now user = reading (λ w. lock_account user (w.now + lockout_duration))

-- `user.LockedUntil != nil && time.Now().Before(*user.LockedUntil)`
abbrev pub is_locked_now : User → ℕ → Bool
is_locked_now u now = elim u.locked_until [ none ↦ false | some until ↦ ltb now until ]

abbrev pub lock_if_many : Bool → User → Action (Unit {0})
lock_if_many true u = attempt (lock_now u.id) >> raise (sentinel account_locked "")
lock_if_many false u = pure tt

-- The lockout check of `Login`: the flag, or the failures where it is not set.
abbrev pub check_lockout : Bool → User → Action (Unit {0})
check_lockout true u = do
  reading (λ w. fail_if (is_locked_now u w.now) (sentinel account_locked ""))
  in_context "unlock account" (unlock_account u.id)
check_lockout false u = do
  failures ← in_context "count user failures" (count_recent_failures_by_user u.id failure_window)
  lock_if_many (leb max_user_failures failures) u

abbrev pub lock_if_reached : Bool → User → Action (Unit {0})
lock_if_reached true u = in_context "lock account" (lock_now u.id)
lock_if_reached false u = pure tt

-- `Login` with a wrong password.
unfoldable pub refuse_password : User → String → Action (Unit {0})
refuse_password u ip = do
  in_context "record failed attempt" (record_failed_attempt (some u.id) ip)
  failures ← in_context "count user failures" (count_recent_failures_by_user u.id failure_window)
  lock_if_reached (leb max_user_failures failures) u
  raise (sentinel invalid_credentials "")

abbrev pub check_password : Bool → User → String → Action (Unit {0})
check_password true u ip = pure tt
check_password false u ip = refuse_password u ip

-- `generateAccessToken`
abbrev pub generate_access_token : ℕ → List String → Action String
generate_access_token user roles =
    reading (λ w. pure (w.env.sign_token (w.env.uuid_string user) roles (w.now + 900)))

-- A new refresh token of a family, which is stored by its hash; the answer is the token.
unfoldable pub issue_refresh_token : ℕ → ℕ → ℕ → Action String
issue_refresh_token token user family = do
  id ← new_uuid
  reading (λ w. in_context "create refresh token" (
      create_refresh_token (record {
        id = id;
        user_id = user;
        token_hash = w.env.sha256 (w.env.uuid_string token);
        family_id = family;
        expires_at = w.now + token_lifetime;
        revoked_at = none;
      })))
  reading (λ w. pure (w.env.uuid_string token))

-- `middleware.GenerateCSRFToken`, of 32 random bytes.
abbrev pub generate_csrf_token : Action String
generate_csrf_token = new_uuid >>= λ n. reading (λ w. pure (w.env.csrf_token n))

-- `Login` after the password has been checked.
unfoldable pub open_session : User → Action (AuthResponse × List Cookie)
open_session u = do
  in_context "clear failed attempts" (clear_failed_attempts u.id)
  in_context "reset failed login" (reset_failed_login u.id)
  user_roles ← in_context "get roles" (get_user_roles u.id)
  access ← generate_access_token u.id (role_names user_roles)
  token ← new_uuid
  family ← new_uuid
  refresh ← issue_refresh_token token u.id family
  csrf ← generate_csrf_token
  pure (record { user = u; roles = role_names user_roles }, session_cookies access refresh csrf)

-- `Login` for an unknown name: the attempt is recorded against the address.
abbrev pub known_user : Option User → String → Action User
known_user (some u) ip = pure u
known_user none ip =
    attempt (record_failed_attempt none ip) >> raise (sentinel invalid_credentials "")

-- `Login`
unfoldable pub login : String → String → String → Action (AuthResponse × List Cookie)
login username password ip = do
  failures ← in_context "count IP failures" (count_recent_failures_by_ip ip failure_window)
  fail_if (leb max_ip_failures failures) (sentinel account_locked "")
  row ← in_context "lookup user" (get_by_username username)
  u ← known_user row ip
  check_lockout u.is_locked u
  reading (λ w. check_password (w.env.check_password u.password_hash password) u ip)
  open_session u

-- A token that was revoked: `Refresh` takes it as stolen and revokes its family.
abbrev pub refuse_reuse : Bool → RefreshToken → Action (Unit {0})
refuse_reuse true t =
    attempt (revoke_refresh_token_family t.family_id) >> raise (sentinel unauthorized "")
refuse_reuse false t = pure tt

abbrev pub is_revoked : RefreshToken → Bool
is_revoked t = elim t.revoked_at [ none ↦ false | some at ↦ true ]

-- `Refresh` after the old token has been revoked.
unfoldable pub renew_session : RefreshToken → Action (List Cookie)
renew_session t = do
  row ← catch (get_by_id t.user_id) (λ e. pure none)
  u ← found row (sentinel unauthorized "")
  user_roles ← in_context "get roles" (get_user_roles u.id)
  access ← generate_access_token u.id (role_names user_roles)
  token ← new_uuid
  refresh ← issue_refresh_token token t.user_id t.family_id
  csrf ← generate_csrf_token
  pure (session_cookies access refresh csrf)

-- `Refresh`
unfoldable pub refresh : String → Action (List Cookie)
refresh token = do
  row ←
      reading
        (λ w. in_context "lookup refresh token" (get_refresh_token_by_hash (w.env.sha256 token)))
  t ← found row (sentinel unauthorized "")
  refuse_reuse (is_revoked t) t
  reading (λ w. fail_if (ltb t.expires_at w.now) (sentinel unauthorized ""))
  in_context "revoke token" (revoke_refresh_token t.id)
  renew_session t

-- `GetCurrentUser`
unfoldable pub get_current_user : ℕ → Action AuthResponse
get_current_user id = do
  row ← catch (get_by_id id) (λ e. pure none)
  u ← found row (sentinel unauthorized "")
  user_roles ← in_context "get roles" (get_user_roles u.id)
  pure (record { user = u; roles = role_names user_roles })

abbrev pub expired_cookie : String → String → Bool → Cookie
expired_cookie name path http_only = record {
  name = name;
  value = "";
  path = path;
  http_only = http_only;
  max_age = none;
}

-- `Logout`
unfoldable pub logout : ℕ → Action (List Cookie)
logout user = do
  attempt (revoke_all_user_tokens user)
  pure (
      expired_cookie "access_token" "/" true
      ∷ expired_cookie "refresh_token" "/api/auth" true
      ∷ expired_cookie "csrf_token" "/" false
      ∷ [])
