-- ===== src/Notifications/Worker.antt =====
-- repo/backend/internal/worker/notification_retry.go: one run of `NotificationRetryJobWithDelivery`.
-- The hook is `none` in production; otherwise it answers for a title and a body whether the
-- delivery succeeded. Failures of `UpdateRetryState` are logged and ignored.
use w1t.Base.{
  ℕ, ◌+◌, ◌*◌, ◌^◌, String, Bool, true, false, List, [], ◌∷◌, Option, none, some, leb,
  if◌then◌else◌,
}
use w1t.Model.Notification.{Notification, NotificationStatus, delivered, failed, permanently_failed}
use w1t.Action.{Action, pure, ◌>>=◌, ◌>>◌, in_context, attempt, reading}
use w1t.Notifications.Store.{update_retry_state, get_pending_for_delivery, get_failed_for_retry}

abbrev pub DeliveryFunc : Type 0
DeliveryFunc = String → String → Bool

-- `deliver != nil` and the call; no hook always delivers.
abbrev pub delivers : Option DeliveryFunc → Notification → Bool
delivers none n = true
delivers (some deliver) n = deliver n.rendered_title n.rendered_body

-- What the run writes for a notification: its status, retry count and next retry.
abbrev pub Outcome : Type 0
Outcome = NotificationStatus × ℕ × Option ℕ

-- The body of the first loop.
abbrev pub first_outcome : ℕ → Bool → Outcome
first_outcome now true = (delivered, 0, none)
first_outcome now false = (failed, 0, some (now + 2 ^ 1 * 60))

-- The body of the second loop, after `newRetryCount := n.RetryCount + 1`.
abbrev pub retry_outcome : ℕ → ℕ → ℕ → Bool → Outcome
retry_outcome now count max true = (delivered, count, none)
retry_outcome now count max false =
    if leb max count
    then (permanently_failed, count, none)
    else (failed, count, some (now + 2 ^ (count + 1) * 60))

abbrev pub write : ℕ → Outcome → Action (Unit {0})
write id (s, retries, next) = attempt (update_retry_state id s retries next)

-- The two loops, each over the rows that were read before it.
unfoldable pub deliver_pending : Option DeliveryFunc → List Notification → Action (Unit {0})
deliver_pending hook [] = pure tt
deliver_pending hook (n ∷ ns) = do
  reading (λ w. write n.id (first_outcome w.now (delivers hook n)))
  deliver_pending hook ns

unfoldable pub retry_failed : Option DeliveryFunc → List Notification → Action (Unit {0})
retry_failed hook [] = pure tt
retry_failed hook (n ∷ ns) = do
  reading
      (λ w. write n.id (retry_outcome w.now (n.retry_count + 1) n.max_retries (delivers hook n)))
  retry_failed hook ns

-- `Fn`
unfoldable pub retry_job : Option DeliveryFunc → Action (Unit {0})
retry_job hook = do
  waiting ← in_context "get pending notifications" (get_pending_for_delivery 100)
  deliver_pending hook waiting
  due ← in_context "get failed notifications" (get_failed_for_retry 50)
  retry_failed hook due
