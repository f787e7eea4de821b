-- ===== src/Auth/BruteForce.antt =====
-- What `AuthService.Login` does with a wrong password, where no database call fails.
use w1t.Base.{
  ℕ, ◌+◌, ◌<◌, String, Bool, true, false, ◌&&◌, ◌≡◌, refl, sym, ap, subst, ◌∙◌, List, [], ◌∷◌, ◌++◌,
  Option, some, arith, find, count, count-append, update, leb, str_eq, ==_iff, if◌then◌else◌,
}
use w1t.Base.Keyed.{find-update}
use w1t.Errors.{sentinel, account_locked, invalid_credentials}
use w1t.Model.User.{User, LoginAttempt}
use w1t.World.{World, Database}
use w1t.Action.{world_of, Result, ok, err, Action, raise, ◌>>◌, proceed, fail_if}
use w1t.Action.Rules.{Ends, Ends-mono}
use w1t.Action.Calm.{IsCalm, read_calm, query_calm, proceed_ok, recover_ok}
use w1t.Action.Steady.{Any}
use w1t.Auth.Store.{
  has_id, has_username, is_of, is_recent, get_by_username, count_recent_failures_by_ip,
  count_recent_failures_by_user, record_failed_attempt, lock_account,
}
use w1t.Auth.Service.{
  Cookie, AuthResponse, max_ip_failures, max_user_failures, failure_window, lockout_duration,
  check_lockout, lock_if_many, lock_if_reached, refuse_password, check_password, login,
}
use w1t.Auth.Lockout.{Admitted, IsOpen, failures_of_ip, failures_of_user, login-Admitted}

-- The user is locked until a time.
abbrev pub locked : ℕ → ℕ → User → User
locked until now u = record (record u { is_locked = true; locked_until = some until }) {
  updated_at = now;
}

abbrev pub attempt_of : ℕ → String → ℕ → LoginAttempt
attempt_of user ip now = record { user_id = some user; ip_address = ip; attempted_at = now }

-- The tables after a wrong password: the attempt is recorded, and from the fifth failure within the
-- window on the account is locked for half an hour.
abbrev pub after_wrong : User → String → World → Database
after_wrong u ip w = record w.db {
  login_attempts = w.db.login_attempts ++ (attempt_of u.id ip w.now ∷ []);
  users =
      if leb max_user_failures (failures_of_user u.id w + 1)
      then update (has_id u.id) (locked (w.now + lockout_duration) w.now) w.db.users
      else w.db.users;
}

module _ (u : User) (ip : String) (w : World) (calm : IsCalm w) where
  abbrev Wrong : {A : Type 0} → Result A → Type 0
  Wrong r =
      (v : World) × (r ≡ err (sentinel invalid_credentials "") v) × (v.db ≡ after_wrong u ip w)

  abbrev recorded : World
  recorded = record w {
    db = record w.db { login_attempts = w.db.login_attempts ++ (attempt_of u.id ip w.now ∷ []) };
  }

  one_more : failures_of_user u.id recorded ≡ failures_of_user u.id w + 1
  one_more =
      count-append (λ a. is_of u.id a && is_recent w.now failure_window a) w.db.login_attempts
        (attempt_of u.id ip w.now ∷ [])
      ∙ ap (λ (n : ℕ). failures_of_user u.id w + n) counted
    where
      counted :
          count
            (λ a. is_of u.id a && is_recent w.now failure_window a)
            (attempt_of u.id ip w.now ∷ [])
          ≡ 1
      counted = ground arith

  result : Bool → Database
  result b = record w.db {
    login_attempts = w.db.login_attempts ++ (attempt_of u.id ip w.now ∷ []);
    users =
        if b
        then update (has_id u.id) (locked (w.now + lockout_duration) w.now) w.db.users
        else w.db.users;
  }

  lock_if_reached-Wrong :
      (b : Bool)
      → leb max_user_failures (failures_of_user u.id w + 1) ≡ b
      → Wrong
          ((lock_if_reached b u >> raise {A = Unit {0}} (sentinel invalid_credentials "")) recorded)
  unfolding lock_account proceed result
  lock_if_reached-Wrong true h =
      proceed_ok Wrong _ _ (recover_ok _ _ (query_calm _ recorded calm))
        (_, refl, sym (ap result h))
  lock_if_reached-Wrong false h = (recorded, refl, sym (ap result h))

  refuse_password-Wrong : Wrong (refuse_password u ip w)
  unfolding refuse_password record_failed_attempt count_recent_failures_by_user
  refuse_password-Wrong = proceed_ok Wrong _ _ (recover_ok _ _ (query_calm _ w calm)) (
      proceed_ok Wrong _ _
        (recover_ok _ _ (
          read_calm
            (λ now d. count (λ a. is_of u.id a && is_recent now failure_window a) d.login_attempts)
            recorded calm))
        (lock_if_reached-Wrong (leb max_user_failures (failures_of_user u.id recorded))
          (ap (leb max_user_failures) (sym one_more))))

module _ (username password ip : String) (w : World) (calm : IsCalm w) (u : User)
    (known : find (has_username username) w.db.users ≡ some u) (unlocked : u.is_locked ≡ false)
    (wrong : w.env.check_password u.password_hash password ≡ false)
    (few : failures_of_user u.id w < max_user_failures)
    (quiet : failures_of_ip ip w < max_ip_failures) where
  abbrev Refused : Result (AuthResponse × List Cookie) → Type 0
  Refused r =
      (v : World) × (r ≡ err (sentinel invalid_credentials "") v) × (v.db ≡ after_wrong u ip w)

  refused :
      (r : Result (Unit {0})) (f : Unit {0} → Action (AuthResponse × List Cookie))
      → Wrong u ip w calm r
      → Refused (proceed r f)
  unfolding proceed
  refused r f (v, e, at) = (v, ap (λ (s : Result (Unit {0})). proceed s f) e, at)

  lockout_passes : (b : Bool) → b ≡ false → check_lockout b u w ≡ ok tt w
  unfolding count_recent_failures_by_user
  lockout_passes true h = absurd (ground (arith, h))
  lockout_passes false h =
      proceed_ok (λ (r : Result (Unit {0})). r ≡ ok tt w) _ _
        (recover_ok _ _ (
          read_calm
            (λ now d. count (λ a. is_of u.id a && is_recent now failure_window a) d.login_attempts)
            w calm))
        (ap (λ (b : Bool). lock_if_many b u w) below)
    where
      below : leb max_user_failures (failures_of_user u.id w) ≡ false
      below = ground (arith, few)

  check_password-Refused :
      (b : Bool) (f : Unit {0} → Action (AuthResponse × List Cookie))
      → b ≡ false
      → Refused (proceed (check_password b u ip w) f)
  check_password-Refused true f h = absurd (ground (arith, h))
  check_password-Refused false f h = refused _ f (refuse_password-Wrong u ip w calm)

  -- Where no database call fails, a wrong password for a known user who is not locked out, from an
  -- address that is not, is refused as invalid credentials; exactly one attempt is recorded, and the
  -- fifth within 15 minutes locks the account for 30 minutes.
  pub login-Refused :
      (v : World) × (login username password ip w ≡ err (sentinel invalid_credentials "") v)
      × (v.db ≡ after_wrong u ip w)
  unfolding login count_recent_failures_by_ip get_by_username
  login-Refused =
      proceed_ok Refused _ _
        (recover_ok _ _ (
          read_calm
            (λ now d.
              count (λ a. str_eq a.ip_address ip && is_recent now failure_window a)
                d.login_attempts)
            w calm))
        (proceed_ok Refused _ _
          (ap (λ (b : Bool). fail_if b (sentinel account_locked "") w) quiet_enough)
          (proceed_ok Refused _ _
            (recover_ok _ _ (
              read_calm (λ now d. find (has_username username) d.users) w calm
              ∙ ap (λ (o : Option User). ok o w) known))
            (proceed_ok Refused _ _ refl (
              proceed_ok Refused _ _ (lockout_passes u.is_locked unlocked)
                (check_password-Refused (w.env.check_password u.password_hash password) _ wrong)))))
    where
      quiet_enough : leb max_ip_failures (failures_of_ip ip w) ≡ false
      quiet_enough = ground (arith, quiet)

-- Where no database call fails in the login with the wrong password, by an unlocked user with four
-- failures within 15 minutes, from an address that is not locked out: after that login, none of that user
-- succeeds for 30 minutes, with any password, from any address and whatever calls fail, while the row of
-- the user is as that login left it.
pub locked_out :
    (username guess ip : String) (w : World) (u : User) (v : World) (other other_ip : String)
    → IsCalm w
    → find (has_username username) w.db.users ≡ some u
    → u.is_locked ≡ false
    → w.env.check_password u.password_hash guess ≡ false
    → failures_of_user u.id w ≡ 4
    → failures_of_ip ip w < max_ip_failures
    → find (has_username username) v.db.users
      ≡ find (has_username username) (world_of (login username guess ip w)).db.users
    → v.now < w.now + lockout_duration
    → Ends {A = AuthResponse × List Cookie} (λ r x. ⊥) Any (login username other other_ip v)
locked_out username guess ip w u v other other_ip calm known unlocked wrong fifth quiet users soon =
    Ends-mono (λ r x. Admitted username other other_ip v r.0.user) {R = λ r x. ⊥} Any {F = Any} _
      (λ r x admitted. never admitted) (λ e x h. tt) (login-Admitted username other other_ip v)
  where
    until : ℕ
    until = w.now + lockout_duration

    reached : leb max_user_failures (failures_of_user u.id w + 1) ≡ true
    reached = ground (arith, fifth)

    left : (world_of (login username guess ip w)).db ≡ after_wrong u ip w
    left =
        let (x, e, at) =
          login-Refused username guess ip w calm u known unlocked wrong (omega (arith, fifth))
            quiet in
        ap (λ (r : Result (AuthResponse × List Cookie)). (world_of r).db) e ∙ at

    written : (after_wrong u ip w).users ≡ update (has_id u.id) (locked until w.now) w.db.users
    written =
        ap
          (λ (b : Bool).
            if b then update (has_id u.id) (locked until w.now) w.db.users else w.db.users)
          reached

    row : find (has_username username) v.db.users ≡ some (locked until w.now u)
    row =
        users
        ∙ ap (λ (d : Database). find (has_username username) d.users) left
        ∙ ap (find (has_username username)) written
        ∙ find-update (has_username username) (has_id u.id) (locked until w.now) (λ y. refl)
            w.db.users u known
        ∙ ap (λ (b : Bool). some (if b then locked until w.now u else u))
            ((==_iff u.id u.id).1 refl)

    never : {x : User} → Admitted username other other_ip v x → ⊥
    never {x} a =
        let same : some x ≡ some (locked until w.now u) = sym a.known ∙ row in
        let at : x ≡ locked until w.now u = cc in
        let open_ : IsOpen (locked until w.now u) v = subst (λ y. IsOpen y v) at a.unlocked in
        absurd (ground (arith, open_.0 refl, soon))
