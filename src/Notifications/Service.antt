-- ===== src/Notifications/Service.antt =====
-- repo/backend/internal/service/notification_service.go
use Prim.Native.String
use w1t.Base.{
  ℕ, suc, ◌-◌, String, Bool, true, false, not, ◌&&◌, List, [], ◌∷◌, ◌==◌, str_eq, contains,
  starts_with, if◌then◌else◌,
}
use w1t.Errors.{sentinel, plain, not_found, forbidden, validation}
use w1t.Model.Notification.{
  Notification, NotificationStatus, failed, permanently_failed, NotificationPreferences, Params,
}
use w1t.Action.{Action, pure, ◌>>=◌, ◌>>◌, in_context, found, fail_if}
use w1t.Notifications.Store.{
  get_preferences, get_template_by_slug, create, new_notification, get_by_id, mark_read,
  count_by_user, list_by_user, reset_to_pending, upsert_preferences,
}

-- `statusOnlySlugs`
abbrev pub status_only_slugs : List String
status_only_slugs =
    "order_confirmed" ∷ "order_processing" ∷ "order_completed" ∷ "order_cancelled"
    ∷ "refund_approved" ∷ []

-- `IsStatusOnlySlug`
abbrev pub is_status_only_slug : String → Bool
is_status_only_slug slug = contains slug status_only_slugs

-- `enabled, exists := prefMap[slug]; exists && !enabled`
abbrev pub is_disabled : String → List (String × Bool) → Bool
is_disabled slug [] = false
is_disabled slug ((s, enabled) ∷ ps) = if str_eq s slug then not enabled else is_disabled slug ps

-- The two early returns of `Send`.
abbrev pub is_muted : NotificationPreferences → String → Bool
is_muted p slug =
    if is_disabled slug p.preferences
    then true
    else str_eq p.subscription_mode "status_only" && not (is_status_only_slug slug)

unfoldable pub text_length : String → ℕ
text_length String.[] = 0
text_length (String.◌∷◌ c s) = suc (text_length s)

-- `strings.ReplaceAll` for a text `old` that is not empty; `skip` characters are part of a match.
unfoldable pub replace_from : ℕ → String → String → String → String
unfolding starts_with text_length
replace_from skip old new String.[] = ""
replace_from skip old new (String.◌∷◌ c s) =
    let hit : Bool = skip == 0 && starts_with old (String.◌∷◌ c s) in
    let rest : String = replace_from (if hit then text_length old - 1 else skip - 1) old new s in
    String.◌++◌ (if hit then new else if skip == 0 then String.◌∷◌ c "" else "") rest

-- `renderTemplate`: the parameters are replaced in the order of the list, where Go takes any order.
unfoldable pub render_template : String → Params → String
unfolding replace_from
render_template text [] = text
render_template text ((key, value) ∷ params) =
    render_template (replace_from 0 (String.◌++◌ "{{." (String.◌++◌ key "}}")) value text) params

-- `Send` once the event has passed the preferences.
unfoldable pub send_wanted : ℕ → String → Params → Action (Unit {0})
send_wanted user slug params = do
  row ← in_context "get template" (get_template_by_slug slug)
  template ← found row (plain (String.◌++◌ "template not found: " slug))
  _ ← in_context "create notification" (
      create (
        new_notification user template params (render_template template.title_template params)
          (render_template template.body_template params)))
  pure tt

abbrev pub unless_muted : Bool → Action (Unit {0}) → Action (Unit {0})
unless_muted true m = pure tt
unless_muted false m = m

-- `Send`
unfoldable pub send : ℕ → String → Params → Action (Unit {0})
send user slug params = do
  prefs ← in_context "get preferences" (get_preferences user)
  unless_muted (is_muted prefs slug) (send_wanted user slug params)

-- The first lines of `MarkRead` and `Retry`.
unfoldable pub get_own : ℕ → ℕ → Action Notification
get_own id user = do
  row ← get_by_id id
  n ← found row (sentinel not_found "")
  fail_if (not (n.user_id == user)) (sentinel forbidden "")
  pure n

-- `List`
unfoldable pub list : ℕ → Bool → ℕ → ℕ → Action (List Notification × ℕ)
list user unread_only page page_size = do
  total ← count_by_user user unread_only
  rows ← list_by_user user unread_only page page_size
  pure (rows, total)

-- `MarkRead`
unfoldable pub mark_own_read : ℕ → ℕ → Action (Unit {0})
mark_own_read id user = do _ ← get_own id user; mark_read id

abbrev pub has_failed : NotificationStatus → Bool
has_failed s = elim s [ failed ↦ true | permanently_failed ↦ true | _ ↦ false ]

-- `Retry`
unfoldable pub retry : ℕ → ℕ → Action (Unit {0})
retry id user = do
  n ← get_own id user
  fail_if (not (has_failed n.status)) (sentinel validation "notification is not in a failed state")
  reset_to_pending id

-- `UpdatePreferences`
unfoldable pub update_preferences : ℕ → List (String × Bool) → String → Action (Unit {0})
update_preferences user prefs mode = upsert_preferences (record {
  user_id = user;
  preferences = prefs;
  subscription_mode = if str_eq mode "" then "all_events" else mode;
})
