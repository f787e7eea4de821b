-- ===== src/Anomalies/Outcome.antt =====
-- The run of the detector, and whom it flags.
use w1t.Base.{
  ℕ, ◌+◌, ◌≤◌, String, ◌≡◌, refl, sym, ap, subst, ◌∙◌, List, [], ◌∷◌, ◌++◌, map, some, arith, count,
  count-append, if◌then◌else◌,
}
use w1t.Errors.{Error}
use w1t.Model.Analytics.{
  AnomalyType, excessive_cancellations, repeated_checkout_failures, AnomalyEvent,
}
use w1t.World.{World, Database}
use w1t.Action.{◌>>=◌, attempt, in_context, query}
use w1t.Action.Rules.{Ends, Ends-mono, proceed-Ends, recover-Ends}
use w1t.Action.Calm.{Never, IsCalm}
use w1t.Orders.Store.{count_by_status, count_cancelled_in_period, cancelled_in_period}
use w1t.Anomalies.Store.{
  get_distinct_users_with_events, count_checkout_failures, checkout_failures, distinct_users,
  is_recent,
}
use w1t.Anomalies.{
  check_users, detect_excessive_cancellations, detect_checkout_failures, anomaly_detector_job,
}
use w1t.Anomalies.Detection.{
  Brief, brief, Logged, Idle, Failed, read-Idle, Idle-Logged, Failed-Logged, Logged-trans,
}
use w1t.Anomalies.Rounds.{all_deserved, check_users-Logged}
use w1t.Anomalies.Reference.{
  concerns, about, due, count-distinct_users, occurred, count-due, none_of,
}

cancellations-kept :
    (user now : ℕ) (d e : Database)
    → e.orders ≡ d.orders
    → e.events ≡ d.events
    → cancelled_in_period user 24 now e ≡ cancelled_in_period user 24 now d
cancellations-kept user now d e orders events = rw orders refl

failures-kept :
    (user now : ℕ) (d e : Database)
    → e.orders ≡ d.orders
    → e.events ≡ d.events
    → checkout_failures user 1 now e ≡ checkout_failures user 1 now d
failures-kept user now d e orders events = rw events refl

abbrev cancellation_briefs : ℕ → Database → List Brief
cancellation_briefs now d =
    all_deserved excessive_cancellations 6 (λ u. cancelled_in_period u 24 now d)
      (distinct_users (is_recent "order_cancelled" 24 now) d.events)

abbrev failure_briefs : ℕ → Database → List Brief
failure_briefs now d =
    all_deserved repeated_checkout_failures 10 (λ u. checkout_failures u 1 now d)
      (distinct_users (is_recent "checkout_failed" 1 now) d.events)

Idle-trans : {u v w : World} → Idle u v → Idle v w → Idle u w
Idle-trans h k = record { now = k.now ∙ h.now; db = k.db ∙ h.db; calm = λ c. k.calm (h.calm c) }

Failed-after : {u v w : World} → Idle u v → Failed v w → Failed u w
Failed-after h k = record {
  now = k.now ∙ h.now;
  db = k.db ∙ h.db;
  not_calm = λ c. k.not_calm (h.calm c);
}

-- The users are asked for, and then each is checked.
check-users :
    (kind : AnomalyType) (limit hours : ℕ) (event context : String) (f : ℕ → ℕ → Database → ℕ)
    → ((user now : ℕ) (d e : Database)
        → e.orders ≡ d.orders
        → e.events ≡ d.events
        → f user now e ≡ f user now d)
    → (v w : World) → Idle w v
    → Ends
        (λ a u.
          Logged
            (all_deserved kind limit
              (λ x. f x w.now w.db)
              (distinct_users (is_recent event hours w.now) w.db.events))
            w
            u)
        (λ e u. Failed w u)
        ((in_context context (get_distinct_users_with_events event hours) >>= λ us.
            check_users kind limit (λ x. query (λ now d. some (f x now d, d))) us)
          v)
unfolding get_distinct_users_with_events
check-users kind limit hours event context f keeps v w idle =
    proceed-Ends
      (λ us u. (us ≡ distinct_users (is_recent event hours w.now) w.db.events) × Idle w u) _ E _ _
      (recover-Ends
        (λ us u. (us ≡ distinct_users (is_recent event hours w.now) w.db.events) × Idle w u) E E _ _
        (Ends-mono
          (λ us u. (us ≡ distinct_users (is_recent event hours v.now) v.db.events) × Idle v u)
          {R = λ us u. (us ≡ distinct_users (is_recent event hours w.now) w.db.events) × Idle w u}
          (λ e u. Failed v u) {F = E} _
          (λ us u k. (
            k.0
                ∙ ap (λ now. distinct_users (is_recent event hours now) v.db.events) idle.now
                ∙ ap (λ (d : Database). distinct_users (is_recent event hours w.now) d.events)
                    idle.db,
            Idle-trans idle k.1,
          ))
          (λ e u k. Failed-after idle k)
          (read-Idle (λ now d. distinct_users (is_recent event hours now) d.events) v))
        (λ e u k. k))
      λ us u k.
        Ends-mono (λ a x. Logged (all_deserved kind limit (λ y. f y u.now u.db) us) u x)
          {R = λ a x.
            Logged
              (all_deserved kind limit (λ y. f y w.now w.db)
                (distinct_users (is_recent event hours w.now) w.db.events))
              w x}
          Never {F = E} _
          (λ a x l. Logged-trans [] _ (Idle-Logged k.1) (
            subst (λ us. Logged (all_deserved kind limit (λ y. f y w.now w.db) us) u x) k.0
              (subst (λ (d : Database). Logged (all_deserved kind limit (λ y. f y w.now d) us) u x)
                k.1.db
                (subst (λ now. Logged (all_deserved kind limit (λ y. f y now u.db) us) u x) k.1.now
                  l))))
          (λ e x never. absurd never) (check_users-Logged kind limit f keeps us u)
  where
    E : Error → World → Type 0
    E e u = Failed w u

detect_excessive_cancellations-Logged :
    (w : World)
    → Ends
        (λ a v. Logged (cancellation_briefs w.now w.db) w v)
        Never
        (attempt detect_excessive_cancellations w)
unfolding detect_excessive_cancellations count_by_status count_cancelled_in_period
detect_excessive_cancellations-Logged w =
    recover-Ends Q E Never _ _
      (proceed-Ends (λ rows v. Idle w v) Q E _ _
        (Ends-mono (λ rows v. (rows ≡ _) × Idle w v) {R = λ rows v. Idle w v} (λ e v. Failed w v)
          {F = E} _ (λ rows v k. k.1) (λ e v k. k) (read-Idle _ w))
        λ rows v k.
          check-users excessive_cancellations 6 24 "order_cancelled" "get users with cancellations"
            (λ user. cancelled_in_period user 24) cancellations-kept v w k)
      (λ e v k. Failed-Logged _ k)
  where
    Q : Unit {0} → World → Type 0
    Q a v = Logged (cancellation_briefs w.now w.db) w v

    E : Error → World → Type 0
    E e v = Failed w v

detect_checkout_failures-Logged :
    (w : World)
    → Ends
        (λ a v. Logged (failure_briefs w.now w.db) w v)
        Never
        (attempt detect_checkout_failures w)
unfolding detect_checkout_failures count_checkout_failures
detect_checkout_failures-Logged w =
    recover-Ends (λ a v. Logged (failure_briefs w.now w.db) w v) (λ e v. Failed w v) Never _ _
      (check-users repeated_checkout_failures 10 1 "checkout_failed"
        "get users with checkout failures" (λ user. checkout_failures user 1) failures-kept w w
        (record { now = refl; db = refl; calm = λ c. c }))
      (λ e v k. Failed-Logged _ k)

abbrev run_briefs : ℕ → Database → List Brief
run_briefs now d = cancellation_briefs now d ++ failure_briefs now d

anomaly_detector_job-Logged :
    (w : World) → Ends (λ a v. Logged (run_briefs w.now w.db) w v) Never (anomaly_detector_job w)
unfolding anomaly_detector_job
anomaly_detector_job-Logged w =
    proceed-Ends (λ a v. Logged (cancellation_briefs w.now w.db) w v) _ Never _ _
      (detect_excessive_cancellations-Logged w)
      λ a v l.
        Ends-mono (λ b u. Logged (failure_briefs v.now v.db) v u)
          {R = λ b u. Logged (run_briefs w.now w.db) w u} Never _
          (λ b u k.
            Logged-trans (cancellation_briefs w.now w.db) (failure_briefs w.now w.db) l
              (subst (λ bs. Logged bs v u) (same v l) k))
          (λ e u never. never) (detect_checkout_failures-Logged v)
  where
    same :
        (v : World)
        → Logged (cancellation_briefs w.now w.db) w v
        → failure_briefs v.now v.db ≡ failure_briefs w.now w.db
    same v l = rw (l.now, l.events) refl

count-brief :
    (user : ℕ) (kind : AnomalyType) (new : List AnomalyEvent)
    → count (about user kind) (map brief new) ≡ count (concerns kind user) new
count-brief user kind [] = refl
count-brief user kind (a ∷ new) =
    ap (λ n. (if concerns kind user a then 1 else 0) + n) (count-brief user kind new)

count-run_briefs :
    (user : ℕ) (kind : AnomalyType) (now : ℕ) (d : Database)
    → count (about user kind) (run_briefs now d) ≡ due kind user now d
count-run_briefs user excessive_cancellations now d =
    count-append (about user excessive_cancellations) (cancellation_briefs now d)
      (failure_briefs now d)
    ∙ ground (
      arith,
      count-due user excessive_cancellations 6 (λ u. cancelled_in_period u 24 now d) _
          (occurred "order_cancelled" 24 user now d) refl
          (count-distinct_users user (is_recent "order_cancelled" 24 now) d.events),
      none_of user repeated_checkout_failures 10 (λ u. checkout_failures u 1 now d)
          excessive_cancellations (distinct_users (is_recent "checkout_failed" 1 now) d.events)
          refl,
    )
count-run_briefs user repeated_checkout_failures now d =
    count-append (about user repeated_checkout_failures) (cancellation_briefs now d)
      (failure_briefs now d)
    ∙ ground (
      arith,
      none_of user excessive_cancellations 6 (λ u. cancelled_in_period u 24 now d)
          repeated_checkout_failures (distinct_users (is_recent "order_cancelled" 24 now) d.events)
          refl,
      count-due user repeated_checkout_failures 10 (λ u. checkout_failures u 1 now d) _
          (occurred "checkout_failed" 1 user now d) refl
          (count-distinct_users user (is_recent "checkout_failed" 1 now) d.events),
    )

-- From `w` to `v`, anomalies are new: of each kind, at most those that a user is due, and where no call
-- fails just those.
abbrev pub Flags : World → World → Type 0
Flags w v =
    (v.db.orders ≡ w.db.orders)
    × (v.db.events ≡ w.db.events)
    × ((new : List AnomalyEvent) × (v.db.anomalies ≡ w.db.anomalies ++ new)
        × ((kind : AnomalyType) (user : ℕ)
            → (count (concerns kind user) new ≤ due kind user w.now w.db)
              × (IsCalm w → count (concerns kind user) new ≡ due kind user w.now w.db)))

-- Whatever calls fail, a run of the detector does not fail, changes no order or event, and adds
-- anomalies to those that are there: at most one of each kind for a user, and only for one with an
-- order_cancelled event and more than 6 cancelled orders in the last 24 hours, or with more than 10
-- checkout_failed events in the last hour. Where no call fails, each such user gets one.
pub anomaly_detector_job-Flags :
    (w : World) → Ends (λ a v. Flags w v) Never (anomaly_detector_job w)
anomaly_detector_job-Flags w =
    Ends-mono (λ a v. Logged (run_briefs w.now w.db) w v) {R = λ a v. Flags w v} Never _
      (λ a v l. (
        l.orders,
        l.events,
        (
          l.new,
          l.added,
          λ kind user.
              let e = count-brief user kind l.new in
              let e' = count-run_briefs user kind w.now w.db in
              (
                omega (arith, e, e', l.within (about user kind)),
                λ calm. sym e ∙ ap (count (about user kind)) (l.full calm).1 ∙ e',
              ),
        ),
      ))
      (λ e v never. never) (anomaly_detector_job-Logged w)
