-- ===== src/Notifications/Tests.antt =====
-- Runs of the notifications, and their theorems at concrete inputs.
use w1t.Base.{
  starts_with, ℕ, false, find, ◌≡◌, refl, List, [], ◌∷◌, map, Option, none, some, arith, str_eq,
}
use w1t.Base.Keyed.{DistinctBy}
use w1t.Model.Notification.{
  Notification, NotificationStatus, pending, delivered, failed, permanently_failed,
  NotificationTemplate, Params,
}
use w1t.World.{World}
use w1t.Samples.{empty_tables, at_rest}
use w1t.Action.{ok, recover, proceed, query}
use w1t.Notifications.Store.{
  has_id, update_retry_state, get_pending_for_delivery, get_failed_for_retry,
}
use w1t.Action.Rules.{Ends}
use w1t.Notifications.Service.{send, render_template, replace_from, text_length}
use w1t.Notifications.Worker.{DeliveryFunc, retry_job, deliver_pending, retry_failed}
use w1t.Notifications.Delivery.{attempted, with_notifications, key, retry_job-attempted}
use w1t.Notifications.History.{job_runs, IsRoomy, IsDueAt, retry_job_gives_up}
use w1t.Notifications.Sending.{Sent, send-Sent}

abbrev notice : NotificationTemplate
notice = record {
  id = 3;
  slug = "order_confirmed";
  title_template = "Order {{.OrderID}}";
  body_template = "{{.OrderID}} is confirmed. {{.Reason}}";
}

abbrev note : ℕ → NotificationStatus → ℕ → Notification
note id status retries = record {
  id = id;
  user_id = 1;
  template_id = 3;
  params = [];
  rendered_title = "Order 5";
  rendered_body = "";
  is_read = false;
  status = status;
  retry_count = retries;
  max_retries = 3;
  next_retry_at = none;
  delivered_at = none;
  created_at = 0;
}

abbrev inbox : List Notification → World
inbox ns = at_rest (record empty_tables { templates = notice ∷ []; notifications = ns })

abbrev details : Params
details = ("OrderID", "5") ∷ ("Reason", "") ∷ []

render-notice : render_template notice.title_template details ≡ "Order 5"
unfolding render_template replace_from starts_with text_length str_eq
render-notice = refl

-- A hook that never delivers.
abbrev broken : Option DeliveryFunc
broken = some (λ title body. false)

abbrev waiting : List Notification
waiting = note 1 pending 0 ∷ note 2 failed 1 ∷ note 3 failed 2 ∷ note 4 delivered 0 ∷ []

abbrev state_of : Notification → NotificationStatus × ℕ × Option ℕ
state_of n = (n.status, n.retry_count, n.next_retry_at)

attempted-waiting :
    map state_of (map (attempted broken 5000) waiting)
    ≡ (failed, 0, some 5120)
      ∷ (failed, 2, some 5480)
      ∷ (permanently_failed, 3, none)
      ∷ (delivered, 0, none)
      ∷ []
attempted-waiting = refl

send-Sent_example :
    Ends
      (Sent 1 "order_confirmed" details (inbox []).db)
      (λ e v. v.db ≡ (inbox []).db)
      (send 1 "order_confirmed" details (inbox []))
send-Sent_example = send-Sent 1 "order_confirmed" details (inbox [])

distinct_waiting : DistinctBy key waiting
distinct_waiting = ground arith

retry_job-attempted_example :
    retry_job broken (inbox waiting)
    ≡ ok tt (with_notifications (map (attempted broken 5000) waiting) (inbox waiting))
retry_job-attempted_example =
    retry_job-attempted broken (inbox waiting) refl distinct_waiting (omega arith) (omega arith)

-- Two retries of the second are left, eight minutes apart.
abbrev two_runs : List ℕ
two_runs = 5000 ∷ 5480 ∷ []

waiting-IsRoomy : IsRoomy broken two_runs (inbox waiting)
unfolding retry_job deliver_pending retry_failed get_pending_for_delivery get_failed_for_retry
    update_retry_state recover proceed query
waiting-IsRoomy = ((omega arith, omega arith), ((omega arith, omega arith), tt))

waiting-IsDueAt : IsDueAt broken 2 two_runs (inbox waiting)
unfolding retry_job deliver_pending retry_failed get_pending_for_delivery get_failed_for_retry
    update_retry_state recover proceed query
waiting-IsDueAt = ((_, refl, refl), ((_, refl, refl), tt))

retry_job_gives_up_example :
    (m : Notification) × (find
        (has_id 2)
        (job_runs broken two_runs (inbox waiting)).db.notifications
      ≡ some m)
    × (m.status ≡ permanently_failed)
    × (m.retry_count ≡ 3)
retry_job_gives_up_example =
    retry_job_gives_up broken two_runs (inbox waiting) 2 (note 2 failed 1) (λ n. refl) refl
      distinct_waiting waiting-IsRoomy refl waiting-IsDueAt refl (omega arith) refl
