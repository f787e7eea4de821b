-- ===== src/Auth/Lockout.antt =====
-- Whom `AuthService.Login` admits.
use w1t.Base.{
  ℕ, ◌<◌, String, Bool, true, false, ◌&&◌, ◌≡◌, refl, sym, ap, subst, ◌∙◌, List, Option, none, some,
  arith, find, count, leb, update, str_eq,
}
use w1t.Errors.{Error, sentinel, account_locked}
use w1t.Model.User.{User}
use w1t.World.{World, Database}
use w1t.Action.{attempt}
use w1t.Action.Rules.{Ends, Ends-mono, proceed-Ends, recover-Ends, fail_if-Ends}
use w1t.Action.Steady.{
  Steady, Settled, Settled-trans, Any, Any-Ends, skip-Ends, read-Settled, query-Steady,
}
use w1t.Auth.Store.{
  has_username, is_of, is_recent, get_by_username, count_recent_failures_by_ip,
  count_recent_failures_by_user, unlock_account, has_id,
}
use w1t.Auth.Service.{
  Cookie, AuthResponse, max_ip_failures, max_user_failures, failure_window, is_locked_now,
  check_lockout, lock_if_many, refuse_password, check_password, known_user, open_session, lock_now,
  login,
}

-- The failures that count against an address and against a user.
abbrev pub failures_of_ip : String → World → ℕ
failures_of_ip ip w =
    count (λ a. str_eq a.ip_address ip && is_recent w.now failure_window a) w.db.login_attempts

abbrev pub failures_of_user : ℕ → World → ℕ
failures_of_user user w =
    count (λ a. is_of user a && is_recent w.now failure_window a) w.db.login_attempts

-- The user is not locked out.
abbrev pub IsOpen : User → World → Type 0
IsOpen u w =
    (u.is_locked ≡ true → is_locked_now u w.now ≡ false)
    × (u.is_locked ≡ false → failures_of_user u.id w < max_user_failures)

-- Who may open a session, in the world before the request.
pub record Admitted (username password ip : String) (w : World) (u : User) : Type 0 where
  pub known : find (has_username username) w.db.users ≡ some u
  pub right : w.env.check_password u.password_hash password ≡ true
  pub unlocked : IsOpen u w
  pub quiet : failures_of_ip ip w < max_ip_failures

abbrev Fails : Error → World → Type 0
Fails = Any

abbrev Never : {A : Type 0} → A → World → Type 0
Never a v = ⊥

lock_if_many-Ends :
    (b : Bool) (u : User) (w v : World)
    → Settled w v
    → Ends (λ a s. (b ≡ false) × Steady w s) Fails (lock_if_many b u v)
lock_if_many-Ends true u w v at =
    proceed-Ends Any (λ a s. (true ≡ false) × Steady w s) Fails _ _
      (Any-Ends (attempt (lock_now u.id) v)) (λ a s h. tt)
lock_if_many-Ends false u w v at = (refl, record { now = at.now; env = at.env })

check_lockout-Open :
    (b : Bool) (u : User) (w v : World)
    → u.is_locked ≡ b
    → Settled w v
    → Ends (λ a s. IsOpen u w × Steady w s) Fails (check_lockout b u v)
unfolding count_recent_failures_by_user unlock_account
check_lockout-Open true u w v lock at =
    proceed-Ends (λ a s. (is_locked_now u v.now ≡ false) × Settled w s) _ Fails _ _
      (fail_if-Ends (λ a s. (is_locked_now u v.now ≡ false) × Settled w s) Fails
        (is_locked_now u v.now) (sentinel account_locked "") v (λ h. tt) (λ h. (h, at)))
      λ a s h.
        recover-Ends _ Fails Fails _ _
          (unlock-Ends s
            (λ r k. (expired h.0, record { now = k.now ∙ h.1.now; env = k.env ∙ h.1.env })))
          (λ e r k. tt)
  where
    expired : is_locked_now u v.now ≡ false → IsOpen u w
    expired h = (
      (λ _. subst (λ n. is_locked_now u n ≡ false) at.now h),
      (λ no. absurd (ground (arith, lock, no))),
    )

    unlock-Ends :
        (s : World)
        → ((r : World) → Steady s r → IsOpen u w × Steady w r)
        → Ends (λ a r. IsOpen u w × Steady w r) Fails (unlock_account u.id s)
    unlock-Ends s k =
        Ends-mono _ {R = λ (a : Unit {0}) r. IsOpen u w × Steady w r} (λ e r. Settled s r)
          {F = Fails} _ (λ a r h. k r h.1) (λ e r h. tt)
          (query-Steady
            (λ now d. some (
              tt,
              record d {
                users =
                    update (has_id u.id)
                      (λ x. record x {
                        is_locked = false;
                        locked_until = none;
                        failed_login_count = 0;
                        updated_at = now;
                      })
                      d.users;
              },
            ))
            s)
check_lockout-Open false u w v lock at =
    proceed-Ends (λ n s. (n ≡ failures_of_user u.id v) × Settled v s) _ Fails _ _
      (recover-Ends _ (λ e s. Settled v s) Fails _ _
        (read-Settled
          (λ now d. count (λ a. is_of u.id a && is_recent now failure_window a) d.login_attempts) v)
        (λ e s k. tt))
      λ n s h.
        Ends-mono (λ a r. (leb max_user_failures n ≡ false) × Steady w r) Fails _
          (λ a r k. (
            (
              (λ no. absurd (ground (arith, lock, no))),
              (λ _. subst (λ m. m < max_user_failures) (h.0 ∙ same_failures) (ground (arith, k.0))),
            ),
            k.1,
          ))
          (λ e r k. tt) (lock_if_many-Ends (leb max_user_failures n) u w s (Settled-trans at h.1))
  where
    same_failures : failures_of_user u.id v ≡ failures_of_user u.id w
    same_failures =
        ap
          (λ (n : ℕ). count (λ a. is_of u.id a && is_recent n failure_window a) v.db.login_attempts)
          at.now
        ∙ ap
            (λ (d : Database).
              count (λ a. is_of u.id a && is_recent w.now failure_window a) d.login_attempts)
            at.db

refuse_password-Never :
    (u : User) (ip : String) (w : World) → Ends Never Fails (refuse_password u ip w)
unfolding refuse_password
refuse_password-Never u ip w =
    skip-Ends Never _ _ λ _ _. skip-Ends Never _ _ λ _ _. skip-Ends Never _ _ λ _ _. tt

check_password-Right :
    (b : Bool) (u : User) (ip : String) (w : World)
    → Ends (λ a v. b ≡ true) Fails (check_password b u ip w)
check_password-Right true u ip w = refl
check_password-Right false u ip w =
    Ends-mono Never Fails _ (λ a v h. absurd h) (λ e v h. h) (refuse_password-Never u ip w)

open_session-User : (u : User) (w : World) → Ends (λ r v. r.0.user ≡ u) Fails (open_session u w)
unfolding open_session
open_session-User u w = skip-Ends R _ _ λ _ _. skip-Ends R _ _ λ _ _. skip-Ends R _ _ λ _ _.
    skip-Ends R _ _ λ _ _.
      skip-Ends R _ _
        λ _ _. skip-Ends R _ _ λ _ _. skip-Ends R _ _ λ _ _. skip-Ends R _ _ λ _ _. refl
  where
    R : AuthResponse × List Cookie → World → Type 0
    R r v = r.0.user ≡ u

known_user-Known :
    (row : Option User) (ip : String) (w v : World)
    → Settled w v
    → Ends (λ u s. (row ≡ some u) × Settled w s) Fails (known_user row ip v)
known_user-Known (some u) ip w v at = (refl, at)
known_user-Known none ip w v at =
    proceed-Ends Any (λ u s. (none ≡ some u) × Settled w s) Fails _ _ (Any-Ends _) (λ a s h. tt)

module _ (username password ip : String) where
  -- Whatever calls fail, a session is opened only for a known user with the right password, whose lock,
  -- if any, has expired, who has otherwise fewer than 5 failures within 15 minutes, from an
  -- address with fewer than 20; the answer is about that user.
  pub login-Admitted :
      (w : World)
      → Ends (λ r v. Admitted username password ip w r.0.user) Any (login username password ip w)
  unfolding login count_recent_failures_by_ip get_by_username
  login-Admitted w =
      proceed-Ends (λ n v. (n ≡ failures_of_ip ip w) × Settled w v) R Fails _ _
        (recover-Ends _ (λ e v. Settled w v) Fails _ _
          (read-Settled
            (λ now d.
              count (λ a. str_eq a.ip_address ip && is_recent now failure_window a)
                d.login_attempts)
            w)
          (λ e v k. tt))
        λ n v h.
          proceed-Ends (λ a s. (n < max_ip_failures) × Settled w s) R Fails _ _
            (fail_if-Ends _ Fails (leb max_ip_failures n) _ v (λ k. tt) (λ k. (ground arith, h.1)))
            λ _ s few.
              proceed-Ends (λ row r. (row ≡ find (has_username username) s.db.users) × Settled s r)
                R Fails _ _
                (recover-Ends _ (λ e r. Settled s r) Fails _ _
                  (read-Settled (λ now d. find (has_username username) d.users) s) (λ e r k. tt))
                λ row r found.
                  proceed-Ends (λ u q. (row ≡ some u) × Settled w q) R Fails _ _
                    (known_user-Known row ip w r (Settled-trans few.1 found.1))
                    λ u q known.
                      proceed-Ends (λ a p. IsOpen u w × Steady w p) R Fails _ _
                        (check_lockout-Open u.is_locked u w q refl known.1)
                        λ _ p free.
                          proceed-Ends (λ a o. p.env.check_password u.password_hash password ≡ true)
                            R Fails _ _
                            (check_password-Right (p.env.check_password u.password_hash password) u
                              ip p)
                            λ _ o checked.
                              Ends-mono (λ x v. x.0.user ≡ u) Fails _
                                (λ x v same.
                                  subst (Admitted username password ip w) (sym same) (record {
                                    known =
                                        ap (λ (d : Database). find (has_username username) d.users)
                                          (sym few.1.db)
                                        ∙ sym found.0
                                        ∙ known.0;
                                    right =
                                        subst
                                          (λ e. e.check_password u.password_hash password ≡ true)
                                          free.1.env checked;
                                    unlocked = free.0;
                                    quiet = subst (λ m. m < max_ip_failures) h.0 few.0;
                                  }))
                                (λ e v k. tt) (open_session-User u o)
    where
      R : AuthResponse × List Cookie → World → Type 0
      R r v = Admitted username password ip w r.0.user
