-- ===== src/Notifications/Delivery.antt =====
-- What one run of the notification worker does to the table, where no database call fails.
use w1t.Base.{
  ℕ, ◌+◌, ◌≤◌, Bool, true, false, ◌≡◌, refl, sym, ap, subst, ◌∙◌, List, [], ◌∷◌, map, Option, arith,
  count, select, take, if◌then◌else◌,
}
use w1t.Base.Keyed.{
  DistinctBy, rewrite_each, rewrite_each-select, take-select, map-map, count-map, map-DistinctBy,
}
use w1t.Model.Notification.{Notification}
use w1t.World.{World}
use w1t.Action.{Result, ok}
use w1t.Action.Calm.{IsCalm, read_calm, query_calm, proceed_ok, recover_ok}
use w1t.Notifications.Store.{
  is_pending, is_due, set_retry_state, update_retry_state, get_pending_for_delivery,
  get_failed_for_retry,
}
use w1t.Notifications.Worker.{
  DeliveryFunc, delivers, Outcome, first_outcome, retry_outcome, deliver_pending, retry_failed,
  retry_job,
}

abbrev pub key : Notification → ℕ
key n = n.id

abbrev pub settle : Outcome → ℕ → Notification → Notification
settle (s, retries, next) now n = set_retry_state s retries next now n

-- What becomes of a notification in one run: a pending one is delivered or fails for the first
-- time; one that failed and is due is delivered, or fails again with its next retry twice as far
-- away, or has failed for good; every other one stays as it is.
abbrev pub attempted : Option DeliveryFunc → ℕ → Notification → Notification
attempted hook now n =
    if is_pending n
    then settle (first_outcome now (delivers hook n)) now n
    else if is_due now n
    then settle (retry_outcome now (n.retry_count + 1) n.max_retries (delivers hook n)) now n
    else n

module _ (hook : Option DeliveryFunc) (now : ℕ) where
  abbrev first : Notification → Notification → Notification
  first n r = settle (first_outcome now (delivers hook n)) now r

  abbrev second : Notification → Notification → Notification
  second n r = settle (retry_outcome now (n.retry_count + 1) n.max_retries (delivers hook n)) now r

abbrev pub with_notifications : List Notification → World → World
with_notifications ns w = record w { db = record w.db { notifications = ns } }

deliver_pending_calm :
    (hook : Option DeliveryFunc) (ns : List Notification) (w : World)
    → IsCalm w
    → deliver_pending hook ns w
      ≡ ok tt (with_notifications (rewrite_each key (first hook w.now) ns w.db.notifications) w)
unfolding deliver_pending update_retry_state
deliver_pending_calm hook [] w calm = refl
deliver_pending_calm hook (n ∷ ns) w calm =
    proceed_ok
      (λ r.
        r
        ≡ ok tt (
            with_notifications (rewrite_each key (first hook w.now) (n ∷ ns) w.db.notifications) w))
      _ _ (recover_ok _ _ (query_calm _ w calm)) (deliver_pending_calm hook ns _ calm)

retry_failed_calm :
    (hook : Option DeliveryFunc) (ns : List Notification) (w : World)
    → IsCalm w
    → retry_failed hook ns w
      ≡ ok tt (with_notifications (rewrite_each key (second hook w.now) ns w.db.notifications) w)
unfolding retry_failed update_retry_state
retry_failed_calm hook [] w calm = refl
retry_failed_calm hook (n ∷ ns) w calm =
    proceed_ok
      (λ r.
        r
        ≡ ok tt (
            with_notifications (rewrite_each key (second hook w.now) (n ∷ ns) w.db.notifications)
              w))
      _ _ (recover_ok _ _ (query_calm _ w calm)) (retry_failed_calm hook ns _ calm)

module _ (hook : Option DeliveryFunc) (now : ℕ) where
  abbrev step1 : Notification → Notification
  step1 n = if is_pending n then first hook now n n else n

  abbrev step2 : Notification → Notification
  step2 n = if is_due now n then second hook now n n else n

  not_due_first :
      (b : Bool) (n : Notification) → is_due now (settle (first_outcome now b) now n) ≡ false
  not_due_first true n = refl
  not_due_first false n = ground arith

  not_due_of_pending : (n : Notification) → is_pending n ≡ true → is_due now n ≡ false
  not_due_of_pending n h = ground arith

  -- The first loop makes no notification due.
  due_later : (n : Notification) → is_due now (step1 n) ≡ is_due now n
  due_later n = by_test (is_pending n) refl
    where
      by_test :
          (p : Bool)
          → is_pending n ≡ p
          → is_due now (if p then first hook now n n else n) ≡ is_due now n
      by_test true h = not_due_first (delivers hook n) n ∙ sym (not_due_of_pending n h)
      by_test false h = refl

  both_steps : (n : Notification) → step2 (step1 n) ≡ attempted hook now n
  both_steps n = by_test (is_pending n)
    where
      by_test :
          (p : Bool)
          → step2 (if p then first hook now n n else n)
            ≡ (if p then first hook now n n else if is_due now n then second hook now n n else n)
      by_test true =
          ap
            (λ (b : Bool).
              if b
              then second hook now (first hook now n n) (first hook now n n)
              else first hook now n n)
            (not_due_first (delivers hook n) n)
      by_test false = refl

  key-step1 : (n : Notification) → key (step1 n) ≡ key n
  key-step1 n = ground arith

module _ (hook : Option DeliveryFunc) (w : World) (calm : IsCalm w) where
  -- Where no database call fails, the rows have different ids and no more
  -- notifications wait than one run takes (100 pending, 50 failed and due), the
  -- run handles each notification once and by itself: it applies `attempted` to
  -- every row of the table and changes nothing else.
  pub retry_job-attempted :
      DistinctBy key w.db.notifications
      → count is_pending w.db.notifications ≤ 100
      → count (is_due w.now) w.db.notifications ≤ 50
      → retry_job hook w
        ≡ ok tt (with_notifications (map (attempted hook w.now) w.db.notifications) w)
  unfolding retry_job get_pending_for_delivery get_failed_for_retry
  retry_job-attempted distinct few_pending few_due =
      proceed_ok P _ _
        (recover_ok _ _ (
          read_calm (λ now d. take 100 (select is_pending d.notifications)) w calm
          ∙ ap (λ (ns : List Notification). ok ns w) (take-select 100 is_pending rows few_pending)))
        (proceed_ok P _ _
          (deliver_pending_calm hook (select is_pending rows) w calm
            ∙ ap (λ (ns : List Notification). ok tt (with_notifications ns w))
                (rewrite_each-select key (first hook w.now) (λ n r. refl) is_pending rows distinct))
          (proceed_ok P _ _
            (recover_ok _ _ (
              read_calm (λ now d. take 50 (select (is_due now) d.notifications)) after calm
              ∙ ap (λ (ns : List Notification). ok ns after)
                  (take-select 50 (is_due w.now) rows1 (
                    subst (λ k. k ≤ 50)
                      (sym
                        (count-map (step1 hook w.now) (is_due w.now) rows (due_later hook w.now)))
                      few_due))))
            (retry_failed_calm hook (select (is_due w.now) rows1) after calm
              ∙ ap (λ (ns : List Notification). ok tt (with_notifications ns w))
                  (rewrite_each-select key (second hook w.now) (λ n r. refl) (is_due w.now) rows1
                      (map-DistinctBy (step1 hook w.now) key rows (key-step1 hook w.now) distinct)
                    ∙ map-map (step2 hook w.now) (step1 hook w.now) (attempted hook w.now) rows
                        (both_steps hook w.now)))))
    where
      rows : List Notification
      rows = w.db.notifications

      rows1 : List Notification
      rows1 = map (step1 hook w.now) rows

      after : World
      after = with_notifications rows1 w

      P : Result (Unit {0}) → Type 0
      P r = r ≡ ok tt (with_notifications (map (attempted hook w.now) w.db.notifications) w)
