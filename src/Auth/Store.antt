-- ===== src/Auth/Store.antt =====
-- repo/backend/internal/store/user_store.go: each method is its SQL statement.
use w1t.Base.{
  ℕ, suc, ◌+◌, String, Bool, true, false, not, ◌&&◌, List, [], ◌∷◌, ◌++◌, Option, none, some, ltb,
  ◌==◌, str_eq, find, exists, count, select, update, if◌then◌else◌,
}
use w1t.Model.User.{User, UserRole, RefreshToken, LoginAttempt}
use w1t.World.{Database}
use w1t.Action.{Action, query}

abbrev pub has_id : ℕ → User → Bool
has_id id u = u.id == id

-- `GetByID`
unfoldable pub get_by_id : ℕ → Action (Option User)
get_by_id id = query (λ now d. some (find (has_id id) d.users, d))

abbrev pub has_username : String → User → Bool
has_username name u = str_eq u.username name

-- `GetByUsername`
unfoldable pub get_by_username : String → Action (Option User)
get_by_username name = query (λ now d. some (find (has_username name) d.users, d))

-- `UPDATE users SET …, updated_at = NOW() WHERE id = $1`
abbrev pub update_user : ℕ → (User → User) → Action (Unit {0})
update_user id f = query (λ now d.
    some (
      tt,
      record d { users = update (has_id id) (λ u. record (f u) { updated_at = now }) d.users },
    ))

-- `IncrementFailedLogin`
unfoldable pub increment_failed_login : ℕ → Action (Unit {0})
increment_failed_login id =
    update_user id (λ u. record u { failed_login_count = suc u.failed_login_count })

-- `LockAccount`
unfoldable pub lock_account : ℕ → ℕ → Action (Unit {0})
lock_account id until =
    update_user id (λ u. record u { is_locked = true; locked_until = some until })

-- `UnlockAccount`
unfoldable pub unlock_account : ℕ → Action (Unit {0})
unlock_account id =
    update_user id
      (λ u. record u { is_locked = false; locked_until = none; failed_login_count = 0 })

-- `ResetFailedLogin`
unfoldable pub reset_failed_login : ℕ → Action (Unit {0})
reset_failed_login id = update_user id (λ u. record u { failed_login_count = 0 })

-- `RecordFailedAttempt`
unfoldable pub record_failed_attempt : Option ℕ → String → Action (Unit {0})
record_failed_attempt user ip = query (λ now d. some (
  tt,
  record d {
    login_attempts =
        d.login_attempts ++ (record { user_id = user; ip_address = ip; attempted_at = now } ∷ []);
  },
))

abbrev pub is_of : ℕ → LoginAttempt → Bool
is_of user a = elim a.user_id [ none ↦ false | some u ↦ u == user ]

-- `attempted_at > now - window`, with the window on the other side.
abbrev pub is_recent : ℕ → ℕ → LoginAttempt → Bool
is_recent now window a = ltb now (a.attempted_at + window)

-- `CountRecentFailuresByUser` and `CountRecentFailuresByIP` since `window` ago.
unfoldable pub count_recent_failures_by_user : ℕ → ℕ → Action ℕ
count_recent_failures_by_user user window =
    query (λ now d. some (count (λ a. is_of user a && is_recent now window a) d.login_attempts, d))

unfoldable pub count_recent_failures_by_ip : String → ℕ → Action ℕ
count_recent_failures_by_ip ip window = query (λ now d.
    some (count (λ a. str_eq a.ip_address ip && is_recent now window a) d.login_attempts, d))

-- `ClearFailedAttempts`
unfoldable pub clear_failed_attempts : ℕ → Action (Unit {0})
clear_failed_attempts user = query (λ now d.
    some (tt, record d { login_attempts = select (λ a. not (is_of user a)) d.login_attempts }))

-- `CleanupOldLoginAttempts`
unfoldable pub cleanup_old_login_attempts : Action (Unit {0})
cleanup_old_login_attempts = query (λ now d. some (
  tt,
  record d {
    login_attempts =
        select (λ (a : LoginAttempt). not (ltb (a.attempted_at + 86400) now)) d.login_attempts;
  },
))

-- `GetUserRoles`
unfoldable pub get_user_roles : ℕ → Action (List UserRole)
get_user_roles user =
    query (λ now d. some (select (λ (r : UserRole). r.user_id == user) d.user_roles, d))

-- `AdminExists`
unfoldable pub admin_exists : Action Bool
admin_exists =
    query (λ now d.
      some (exists (λ (r : UserRole). str_eq r.role_name "administrator") d.user_roles, d))

abbrev pub has_hash : String → RefreshToken → Bool
has_hash hash t = str_eq t.token_hash hash

abbrev pub insert_token : RefreshToken → ℕ → Database → Option (Unit {0} × Database)
insert_token t now d =
    if exists (has_hash t.token_hash) d.refresh_tokens
    then none
    else some (tt, record d { refresh_tokens = d.refresh_tokens ++ (t ∷ []) })

-- `CreateRefreshToken`; hashes are unique.
unfoldable pub create_refresh_token : RefreshToken → Action (Unit {0})
create_refresh_token t = query (insert_token t)

-- `GetRefreshTokenByHash`
unfoldable pub get_refresh_token_by_hash : String → Action (Option RefreshToken)
get_refresh_token_by_hash hash = query (λ now d. some (find (has_hash hash) d.refresh_tokens, d))

abbrev pub is_live : RefreshToken → Bool
is_live t = elim t.revoked_at [ none ↦ true | some at ↦ false ]

abbrev pub set_revoked : ℕ → RefreshToken → RefreshToken
set_revoked now t = record t { revoked_at = some now }

-- `UPDATE refresh_tokens SET revoked_at = NOW() WHERE …`
abbrev pub revoke_where : (RefreshToken → Bool) → Action (Unit {0})
revoke_where p =
    query (λ now d.
      some (tt, record d { refresh_tokens = update p (set_revoked now) d.refresh_tokens }))

abbrev pub has_token_id : ℕ → RefreshToken → Bool
has_token_id id t = t.id == id

abbrev pub is_live_of_family : ℕ → RefreshToken → Bool
is_live_of_family family t = t.family_id == family && is_live t

abbrev pub is_live_of_user : ℕ → RefreshToken → Bool
is_live_of_user user t = t.user_id == user && is_live t

-- `RevokeRefreshToken`, `RevokeRefreshTokenFamily`, `RevokeAllUserTokens`
unfoldable pub revoke_refresh_token : ℕ → Action (Unit {0})
revoke_refresh_token id = revoke_where (has_token_id id)

unfoldable pub revoke_refresh_token_family : ℕ → Action (Unit {0})
revoke_refresh_token_family family = revoke_where (is_live_of_family family)

unfoldable pub revoke_all_user_tokens : ℕ → Action (Unit {0})
revoke_all_user_tokens user = revoke_where (is_live_of_user user)

-- `CleanupExpiredTokens`
unfoldable pub cleanup_expired_tokens : Action (Unit {0})
cleanup_expired_tokens = query (λ now d. some (
  tt,
  record d {
    refresh_tokens =
        select (λ (t : RefreshToken). not (ltb (t.expires_at + 2592000) now)) d.refresh_tokens;
  },
))
