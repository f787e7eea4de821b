-- ===== src/Notifications/History.antt =====
-- Many runs of the retry job, one after the other, and what becomes of the table.
use w1t.Base.{
  ℕ, ◌+◌, ◌≤◌, ◌<◌, Bool, true, false, ◌≡◌, refl, sym, ap, subst, ◌∙◌, List, [], ◌∷◌, map, Option,
  some, arith, ◌==◌, find, count, length, if◌then◌else◌,
}
use w1t.Base.Keyed.{DistinctBy, map_self, map-map, map-DistinctBy}
use w1t.Model.Notification.{Notification, failed, permanently_failed}
use w1t.World.{World}
use w1t.Action.{Result, world_of}
use w1t.Action.Calm.{IsCalm}
use w1t.Notifications.Store.{has_id, is_pending, is_due, is_past}
use w1t.Notifications.Worker.{DeliveryFunc, delivers, retry_job}
use w1t.Notifications.Delivery.{attempted, with_notifications, key, retry_job-attempted}
use w1t.Notifications.Lifecycle.{runs, InTime, runs_give_up}

-- The world after a run of the job at a time.
abbrev pub after_run : Option DeliveryFunc → ℕ → World → World
after_run hook t w = world_of (retry_job hook (record w { now = t }))

-- The job, started at each time of the list.
unfoldable pub job_runs : Option DeliveryFunc → List ℕ → World → World
job_runs hook [] w = w
job_runs hook (t ∷ ts) w = job_runs hook ts (after_run hook t w)

-- Before each run, no more notifications wait than one run takes.
abbrev pub IsRoomy : Option DeliveryFunc → List ℕ → World → Type 0
IsRoomy hook [] w = Unit
IsRoomy hook (t ∷ ts) w =
    ((count is_pending w.db.notifications ≤ 100) × (count (is_due t) w.db.notifications ≤ 50))
    × IsRoomy hook ts (after_run hook t w)

-- At each run, the time for the next retry of the notification has come.
abbrev pub IsDueAt : Option DeliveryFunc → ℕ → List ℕ → World → Type 0
IsDueAt hook id [] w = Unit
IsDueAt hook id (t ∷ ts) w =
    ((n : Notification) × (find (has_id id) w.db.notifications ≡ some n)
      × (is_past t n.next_retry_at ≡ true))
    × IsDueAt hook id ts (after_run hook t w)

key-attempted :
    (hook : Option DeliveryFunc) (t : ℕ) (n : Notification) → key (attempted hook t n) ≡ key n
key-attempted hook t n = ground arith

find-map :
    (id : ℕ) (f : Notification → Notification) (rows : List Notification) {n : Notification}
    → ((m : Notification) → (f m).id ≡ m.id)
    → find (has_id id) rows ≡ some n
    → find (has_id id) (map f rows) ≡ some (f n)
find-map id f [] keeps h = ground (arith, h)
find-map id f (m ∷ rows) {n} keeps h =
    subst (λ k. (if k == id then some (f m) else find (has_id id) (map f rows)) ≡ some (f n))
      (sym (keeps m)) (by_case (m.id == id) (find-map id f rows keeps) h)
  where
    by_case :
        (b : Bool)
        → (find (has_id id) rows ≡ some n → find (has_id id) (map f rows) ≡ some (f n))
        → (if b then some m else find (has_id id) rows) ≡ some n
        → (if b then some (f m) else find (has_id id) (map f rows)) ≡ some (f n)
    by_case true later e = let same : m ≡ n = ground (arith, e) in ap (λ x. some (f x)) same
    by_case false later e = later e

module _ (hook : Option DeliveryFunc) where
  key-runs : (ts : List ℕ) (n : Notification) → key (runs hook ts n) ≡ key n
  unfolding runs
  key-runs [] n = refl
  key-runs (t ∷ ts) n = key-runs ts (attempted hook t n) ∙ key-attempted hook t n

  -- One run, of a job that takes all that waits.
  table_after :
      (t : ℕ) (w : World)
      → IsCalm w
      → DistinctBy key w.db.notifications
      → (count is_pending w.db.notifications ≤ 100) × (count (is_due t) w.db.notifications ≤ 50)
      → after_run hook t w
        ≡ with_notifications (map (attempted hook t) w.db.notifications) (record w { now = t })
  table_after t w calm distinct room =
      ap (λ (r : Result (Unit {0})). world_of r)
        (retry_job-attempted hook (record w { now = t }) calm distinct room.0 room.1)

  distinct_after :
      (t : ℕ) (rows : List Notification)
      → DistinctBy key rows
      → DistinctBy key (map (attempted hook t) rows)
  distinct_after t rows d = map-DistinctBy (attempted hook t) key rows (key-attempted hook t) d

  table_runs :
      (ts : List ℕ) (w : World)
      → IsCalm w
      → DistinctBy key w.db.notifications
      → IsRoomy hook ts w
      → (job_runs hook ts w).db.notifications ≡ map (runs hook ts) w.db.notifications
  unfolding job_runs runs
  table_runs [] w calm distinct room = sym (map_self _ w.db.notifications (λ n. refl))
  table_runs (t ∷ ts) w calm distinct room =
      subst
        (λ v.
          IsRoomy hook ts v
          → (job_runs hook ts v).db.notifications ≡ map (runs hook (t ∷ ts)) w.db.notifications)
        (sym (table_after t w calm distinct room.0))
        (λ later.
          table_runs ts _ calm (distinct_after t w.db.notifications distinct) later
          ∙ map-map (runs hook ts) (attempted hook t) (runs hook (t ∷ ts)) w.db.notifications
              (λ n. refl))
        room.1

  IsDueAt-InTime :
      (id : ℕ) (ts : List ℕ) (w : World) (n : Notification)
      → IsCalm w
      → DistinctBy key w.db.notifications
      → IsRoomy hook ts w
      → find (has_id id) w.db.notifications ≡ some n
      → IsDueAt hook id ts w
      → InTime hook ts n
  IsDueAt-InTime id [] w n calm distinct room at due = tt
  IsDueAt-InTime id (t ∷ ts) w n calm distinct room at due = (
    (let (m, found, past) = due.0 in
        let same : m ≡ n = ground (arith, found, at) in
        subst (λ (x : Notification). is_past t x.next_retry_at ≡ true) same past),
    subst (λ v. IsRoomy hook ts v → IsDueAt hook id ts v → InTime hook ts (attempted hook t n))
        (sym (table_after t w calm distinct room.0))
        (λ later due_later.
          IsDueAt-InTime id ts _ (attempted hook t n) calm
            (distinct_after t w.db.notifications distinct) later
            (find-map id (attempted hook t) w.db.notifications (key-attempted hook t) at) due_later)
        room.1 due.1,
  )

  -- Where no database call fails, ids are distinct, and no more notifications wait at each of the given
  -- times than one run takes (100 pending, 50 failed and due): where delivery always fails, a failed
  -- notification with k retries left, whose time has come at each of k runs of the job, has failed for
  -- good after them, and has used all its retries.
  pub retry_job_gives_up :
      (ts : List ℕ) (w : World) (id : ℕ) (n : Notification)
      → ((m : Notification) → delivers hook m ≡ false)
      → IsCalm w
      → DistinctBy key w.db.notifications
      → IsRoomy hook ts w
      → find (has_id id) w.db.notifications ≡ some n
      → IsDueAt hook id ts w
      → n.status ≡ failed
      → n.retry_count < n.max_retries
      → n.retry_count + length ts ≡ n.max_retries
      → (m : Notification) × (find (has_id id) (job_runs hook ts w).db.notifications ≡ some m)
        × (m.status ≡ permanently_failed)
        × (m.retry_count ≡ n.max_retries)
  retry_job_gives_up ts w id n broken calm distinct room at due bad few left =
      let spent =
        runs_give_up hook broken ts n bad few left
          (IsDueAt-InTime id ts w n calm distinct room at due) in
      (
        runs hook ts n,
        ap (find (has_id id)) (table_runs ts w calm distinct room)
            ∙ find-map id (runs hook ts) w.db.notifications (key-runs ts) at,
        spent.0,
        spent.1,
      )
