-- ===== src/Anomalies/Store.antt =====
-- repo/backend/internal/store/analytics_store.go: the statements on anomalies.
use w1t.Base.{
  ℕ, suc, ◌+◌, ◌*◌, String, Bool, true, false, not, ◌&&◌, List, [], ◌∷◌, ◌++◌, Option, none, some,
  ltb, ◌==◌, str_eq, count, select, update, length, page_of, if◌then◌else◌,
}
use w1t.Model.Analytics.{AnalyticsEvent, AnomalyEvent}
use w1t.World.{Database}
use w1t.Action.{Action, query, ◌>>=◌, pure}

abbrev pub new_row : AnomalyEvent → ℕ → Database → AnomalyEvent
new_row a now d = record a { id = d.next_id; acknowledged = false; created_at = now }

abbrev pub add_anomaly : AnomalyEvent → ℕ → Database → Database
add_anomaly a now d = record d {
  next_id = suc d.next_id;
  anomalies = d.anomalies ++ (new_row a now d ∷ []);
}

-- `CreateAnomalyEvent`; the caller does not read the id and the time again.
unfoldable pub create_anomaly_event : AnomalyEvent → Action (Unit {0})
create_anomaly_event a = query (λ now d. some (tt, add_anomaly a now d))

abbrev pub passes : Option Bool → AnomalyEvent → Bool
passes none a = true
passes (some b) a = if b then a.acknowledged else not a.acknowledged

-- `ListAnomalyEvents`: the total, and a page, the newest first.
unfoldable pub list_anomaly_events : Option Bool → ℕ → ℕ → Action (List AnomalyEvent × ℕ)
list_anomaly_events filter page page_size = do
  total ← query (λ now d. some (length (select (passes filter) d.anomalies), d))
  rows ← query (λ now d. some (page_of page page_size (select (passes filter) d.anomalies), d))
  pure (rows, total)

abbrev pub has_id : ℕ → AnomalyEvent → Bool
has_id id a = a.id == id

-- `AcknowledgeAnomaly`
unfoldable pub acknowledge_anomaly : ℕ → Action (Unit {0})
acknowledge_anomaly id = query (λ now d. some (
  tt,
  record d { anomalies = update (has_id id) (λ a. record a { acknowledged = true }) d.anomalies },
))

-- `created_at > NOW() - hours`, with the hours on the other side.
abbrev pub is_recent : String → ℕ → ℕ → AnalyticsEvent → Bool
is_recent kind hours now e = str_eq e.event_type kind && ltb now (e.created_at + hours * 3600)

abbrev pub is_by : ℕ → AnalyticsEvent → Bool
is_by user e = elim e.user_id [ none ↦ false | some u ↦ u == user ]

abbrev pub checkout_failures : ℕ → ℕ → ℕ → Database → ℕ
checkout_failures user hours now d =
    count (λ e. is_by user e && is_recent "checkout_failed" hours now e) d.events

-- `CountCheckoutFailures`
unfoldable pub count_checkout_failures : ℕ → ℕ → Action ℕ
count_checkout_failures user hours = query (λ now d. some (checkout_failures user hours now d, d))

-- `SELECT DISTINCT user_id … WHERE user_id IS NOT NULL`, in the order of the events.
abbrev pub with_user : Option ℕ → List ℕ → List ℕ
with_user none us = us
with_user (some u) us = u ∷ select (λ v. not (v == u)) us

abbrev pub distinct_users : (AnalyticsEvent → Bool) → List AnalyticsEvent → List ℕ
distinct_users p [] = []
distinct_users p (e ∷ es) =
    let rest = distinct_users p es in if p e then with_user e.user_id rest else rest

-- `GetDistinctUsersWithEvents`
unfoldable pub get_distinct_users_with_events : String → ℕ → Action (List ℕ)
get_distinct_users_with_events kind hours =
    query (λ now d. some (distinct_users (is_recent kind hours now) d.events, d))

abbrev is_recent_any : ℕ → ℕ → AnalyticsEvent → Bool
is_recent_any hours now e = ltb now (e.created_at + hours * 3600)

-- `CountActiveUsers`
unfoldable pub count_active_users : ℕ → Action ℕ
count_active_users hours =
    query (λ now d. some (length (distinct_users (is_recent_any hours now) d.events), d))
