-- ===== src/Notifications/Store.antt =====
-- repo/backend/internal/store/notification_store.go: each method is its SQL statement.
use w1t.Base.{
  ℕ, suc, String, Bool, true, false, not, ◌&&◌, List, [], ◌∷◌, ◌++◌, Option, none, some, ltb, leb,
  ◌==◌, str_eq, find, exists, count, select, update, take, page_of, if◌then◌else◌,
}
use w1t.Model.Notification.{
  Notification, NotificationStatus, pending, delivered, failed, NotificationTemplate,
  NotificationPreferences, Params,
}
use w1t.World.{Database}
use w1t.Action.{Action, query}

abbrev pub has_id : ℕ → Notification → Bool
has_id id n = n.id == id

abbrev pub has_slug : String → NotificationTemplate → Bool
has_slug slug t = str_eq t.slug slug

-- `GetTemplateBySlug`
unfoldable pub get_template_by_slug : String → Action (Option NotificationTemplate)
get_template_by_slug slug = query (λ now d. some (find (has_slug slug) d.templates, d))

-- The row that `Create` inserts, with the defaults of the table.
abbrev pub new_notification : ℕ → NotificationTemplate → Params → String → String → Notification
new_notification user template params title body = record {
  id = 0;
  user_id = user;
  template_id = template.id;
  params = params;
  rendered_title = title;
  rendered_body = body;
  is_read = false;
  status = pending;
  retry_count = 0;
  max_retries = 3;
  next_retry_at = none;
  delivered_at = none;
  created_at = 0;
}

abbrev pub is_pending : Notification → Bool
is_pending n = elim n.status [ pending ↦ true | _ ↦ false ]

abbrev pub is_delivered : NotificationStatus → Bool
is_delivered s = elim s [ delivered ↦ true | _ ↦ false ]

abbrev pub is_failed : Notification → Bool
is_failed n = elim n.status [ failed ↦ true | _ ↦ false ]

abbrev pub insert_notification : Notification → ℕ → Database → Notification × Database
insert_notification n now d =
    let row : Notification = record n {
      id = d.next_id;
      delivered_at = if is_delivered n.status then some now else none;
      created_at = now;
    } in
    (row, record d { next_id = suc d.next_id; notifications = d.notifications ++ (row ∷ []) })

-- `Create`
unfoldable pub create : Notification → Action Notification
create n = query (λ now d. some (insert_notification n now d))

-- The join of `GetByID` and `ListByUser` with the templates.
abbrev pub has_template : Database → Notification → Bool
has_template d n = exists (λ (t : NotificationTemplate). t.id == n.template_id) d.templates

-- `GetByID`
unfoldable pub get_by_id : ℕ → Action (Option Notification)
get_by_id id =
    query (λ now d. some (find (λ n. has_id id n && has_template d n) d.notifications, d))

abbrev pub is_unread_of : ℕ → Notification → Bool
is_unread_of user n = n.user_id == user && not n.is_read

abbrev pub is_listed_for : ℕ → Bool → Notification → Bool
is_listed_for user true n = is_unread_of user n
is_listed_for user false n = n.user_id == user

-- `ListByUser`: the number of rows is asked before the page is.
unfoldable pub count_by_user : ℕ → Bool → Action ℕ
count_by_user user unread_only =
    query (λ now d. some (count (is_listed_for user unread_only) d.notifications, d))

unfoldable pub list_by_user : ℕ → Bool → ℕ → ℕ → Action (List Notification)
list_by_user user unread_only page page_size = query (λ now d. some (
  page_of page page_size
      (select (λ n. is_listed_for user unread_only n && has_template d n) d.notifications),
  d,
))

abbrev pub set_read : Notification → Notification
set_read n = record n { is_read = true }

-- `MarkRead`
unfoldable pub mark_read : ℕ → Action (Unit {0})
mark_read id =
    query
      (λ now d. some (tt, record d { notifications = update (has_id id) set_read d.notifications }))

-- `MarkAllRead`
unfoldable pub mark_all_read : ℕ → Action (Unit {0})
mark_all_read user = query (λ now d.
    some (tt, record d { notifications = update (is_unread_of user) set_read d.notifications }))

-- `CountUnread`
unfoldable pub count_unread : ℕ → Action ℕ
count_unread user = query (λ now d. some (count (is_unread_of user) d.notifications, d))

abbrev pub set_pending : Notification → Notification
set_pending n = record n { status = pending; next_retry_at = none }

-- `ResetToPending`
unfoldable pub reset_to_pending : ℕ → Action (Unit {0})
reset_to_pending id = query (λ now d.
    some (tt, record d { notifications = update (has_id id) set_pending d.notifications }))

-- `GetPendingForDelivery`; the table is in the order of creation.
unfoldable pub get_pending_for_delivery : ℕ → Action (List Notification)
get_pending_for_delivery limit =
    query (λ now d. some (take limit (select is_pending d.notifications), d))

-- `next_retry_at IS NULL OR next_retry_at <= NOW()`
abbrev pub is_past : ℕ → Option ℕ → Bool
is_past now none = true
is_past now (some t) = leb t now

abbrev pub is_due : ℕ → Notification → Bool
is_due now n = is_failed n && (ltb n.retry_count n.max_retries && is_past now n.next_retry_at)

-- `GetFailedForRetry`
unfoldable pub get_failed_for_retry : ℕ → Action (List Notification)
get_failed_for_retry limit =
    query (λ now d. some (take limit (select (is_due now) d.notifications), d))

abbrev pub set_retry_state : NotificationStatus → ℕ → Option ℕ → ℕ → Notification → Notification
set_retry_state s retries next now n = record n {
  status = s;
  retry_count = retries;
  next_retry_at = next;
  delivered_at = if is_delivered s then some now else n.delivered_at;
}

-- `UpdateRetryState`
unfoldable pub update_retry_state : ℕ → NotificationStatus → ℕ → Option ℕ → Action (Unit {0})
update_retry_state id s retries next = query (λ now d. some (
  tt,
  record d {
    notifications = update (has_id id) (set_retry_state s retries next now) d.notifications;
  },
))

-- Preferences

abbrev pub default_preferences : ℕ → NotificationPreferences
default_preferences user = record {
  user_id = user;
  preferences = [];
  subscription_mode = "all_events";
}

abbrev pub is_for : ℕ → NotificationPreferences → Bool
is_for user p = p.user_id == user

abbrev pub or_default : ℕ → Option NotificationPreferences → NotificationPreferences
or_default user none = default_preferences user
or_default user (some p) = p

-- `GetPreferences`
unfoldable pub get_preferences : ℕ → Action NotificationPreferences
get_preferences user = query (λ now d. some (or_default user (find (is_for user) d.preferences), d))

abbrev pub upsert :
    NotificationPreferences → List NotificationPreferences → List NotificationPreferences
upsert p ps =
    if exists (is_for p.user_id) ps then update (is_for p.user_id) (λ q. p) ps else ps ++ (p ∷ [])

-- `UpsertPreferences`
unfoldable pub upsert_preferences : NotificationPreferences → Action (Unit {0})
upsert_preferences p = query (λ now d. some (tt, record d { preferences = upsert p d.preferences }))
