-- ===== src/Auth/Tests.antt =====
-- Runs of the sessions, and their theorems at concrete inputs.
use w1t.Base.{
  ◌<◌, arith, ℕ, true, false, ◌≡◌, refl, List, [], ◌∷◌, Option, none, some, find, str_eq,
}
use w1t.Errors.{invalid_credentials, sentinel, unauthorized, account_locked}
use w1t.Model.User.{LoginAttempt, User, RefreshToken}
use w1t.World.{World}
use w1t.Samples.{empty_tables, at_rest}
use w1t.Action.{Result, ok, err, world_of, query, proceed, recover}
use w1t.Action.Rules.{Ends}
use w1t.Action.Steady.{Any}
use w1t.Auth.Store.{
  has_username, has_hash, get_refresh_token_by_hash, revoke_refresh_token, get_by_id,
  get_user_roles, create_refresh_token, get_by_username, count_recent_failures_by_ip,
}
use w1t.Auth.Service.{
  AuthResponse, Cookie, refresh, renew_session, issue_refresh_token, new_uuid, login,
}
use w1t.Auth.BruteForce.{after_wrong, login-Refused, locked_out}
use w1t.Auth.Lockout.{failures_of_ip, Admitted, login-Admitted}
use w1t.Auth.Sessions.{Renewed, refresh-Renewed, refresh_once}
use w1t.Auth.Reuse.{IsDead, refresh-Refused}

abbrev alice : User
alice = record {
  id = 1;
  username = "alice";
  password_hash = "secret";
  display_name = "Alice";
  email_encrypted = none;
  email_hash = none;
  is_locked = false;
  locked_until = none;
  failed_login_count = 0;
  created_by = none;
  created_at = 0;
  updated_at = 0;
}

abbrev session : Option ℕ → RefreshToken
session revoked = record {
  id = 7;
  user_id = 1;
  token_hash = "token";
  family_id = 8;
  expires_at = 9000;
  revoked_at = revoked;
}

-- Alice has one refresh token.
abbrev home : Option ℕ → World
home revoked =
    at_rest (record empty_tables { users = alice ∷ []; refresh_tokens = session revoked ∷ [] })

abbrev renewal : Result (List Cookie)
renewal = refresh "token" (home none)

abbrev cookies_of : Result (List Cookie) → List Cookie
cookies_of (ok cookies w) = cookies
cookies_of (err e w) = []

renewal_works : renewal ≡ ok (cookies_of renewal) (world_of renewal)
unfolding refresh renew_session issue_refresh_token new_uuid get_refresh_token_by_hash
    revoke_refresh_token get_by_id get_user_roles create_refresh_token query proceed recover str_eq
renewal_works = refl

-- The right password does not open a lock before its time.
locked_until_later :
    login "alice" "secret" "10.0.0.1" (
      at_rest (record empty_tables {
        users = (record alice { is_locked = true; locked_until = some 6000 }) ∷ [];
      }))
    ≡ err (sentinel account_locked "") (
        at_rest (record empty_tables {
          users = (record alice { is_locked = true; locked_until = some 6000 }) ∷ [];
        }))
unfolding login count_recent_failures_by_ip get_by_username query proceed recover str_eq
locked_until_later = refl

env_kept : (world_of renewal).env.sha256 "token" ≡ "token"
unfolding refresh renew_session issue_refresh_token new_uuid get_refresh_token_by_hash
    revoke_refresh_token get_by_id get_user_roles create_refresh_token query proceed recover str_eq
env_kept = refl

session_found :
    find (has_hash "token") (home (some 10)).db.refresh_tokens ≡ some (session (some 10))
unfolding str_eq
session_found = refl

login-Admitted_example :
    Ends
      (λ r v. Admitted "alice" "secret" "10.0.0.1" (home none) r.0.user)
      Any
      (login "alice" "secret" "10.0.0.1" (home none))
login-Admitted_example = login-Admitted "alice" "secret" "10.0.0.1" (home none)

refresh-Renewed_example :
    Ends (λ cookies v. Renewed "token" (home none) v) Any (refresh "token" (home none))
refresh-Renewed_example = refresh-Renewed "token" (home none)

refresh_once_example : Ends {A = List Cookie} (λ c x. ⊥) Any (refresh "token" (world_of renewal))
refresh_once_example =
    refresh_once "token" (home none) (world_of renewal) (world_of renewal) (cookies_of renewal)
      renewal_works refl env_kept

refresh-Refused_example :
    (v : World) × (refresh "token" (home (some 10)) ≡ err (sentinel unauthorized "") v)
    × IsDead 8 v.db.refresh_tokens
refresh-Refused_example =
    refresh-Refused "token" (home (some 10)) refl (session (some 10)) session_found refl

abbrev guess : ℕ → LoginAttempt
guess t = record { user_id = some 1; ip_address = "10.0.0.9"; attempted_at = t }

-- Four wrong guesses within the last minutes.
abbrev besieged : World
besieged = at_rest (record empty_tables {
  users = alice ∷ [];
  login_attempts = guess 4700 ∷ guess 4800 ∷ guess 4900 ∷ guess 4950 ∷ [];
})

alice_known : find (has_username "alice") besieged.db.users ≡ some alice
unfolding str_eq
alice_known = refl

wrong_guess : besieged.env.check_password alice.password_hash "guess" ≡ false
unfolding str_eq
wrong_guess = refl

quiet_address : failures_of_ip "10.0.0.9" besieged < 20
unfolding str_eq
quiet_address = omega arith

login-Refused_example :
    (v : World) × (login "alice" "guess" "10.0.0.9" besieged
      ≡ err (sentinel invalid_credentials "") v)
    × (v.db ≡ after_wrong alice "10.0.0.9" besieged)
login-Refused_example =
    login-Refused "alice" "guess" "10.0.0.9" besieged refl alice alice_known refl wrong_guess
      (omega arith) quiet_address

-- A minute after the fifth guess.
abbrev guessed : World
guessed = world_of (login "alice" "guess" "10.0.0.9" besieged)

abbrev minute_later : World
minute_later = record guessed { now = 5060 }

locked_out_example :
    Ends {A = AuthResponse × List Cookie}
      (λ r x. ⊥)
      Any
      (login "alice" "secret" "10.0.0.1" minute_later)
locked_out_example =
    locked_out "alice" "guess" "10.0.0.9" besieged alice minute_later "secret" "10.0.0.1" refl
      alice_known refl wrong_guess refl quiet_address refl (omega arith)
