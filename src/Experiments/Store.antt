-- ===== src/Experiments/Store.antt =====
-- repo/backend/internal/store/analytics_store.go: events and experiments, one function for each statement.
use Prim.Native.String
use w1t.Base.{
  ℕ, suc, ◌+◌, ◌*◌, String, Bool, true, false, not, ◌&&◌, ◌||◌, List, [], ◌∷◌, ◌++◌, Option, none,
  some, ltb, ◌==◌, str_eq, find, exists, count, update, reverse_onto, if◌then◌else◌,
}
use w1t.Model.Analytics.{AbTest, AbTestStatus, draft, running, AnalyticsEvent, AbTestResult}
use w1t.World.{Database}
use w1t.Action.{Action, query, reading}

-- `RecordEvent`
unfoldable pub record_event : AnalyticsEvent → Action (Unit {0})
record_event e =
    query
      (λ now d. some (tt, record d { events = d.events ++ (record e { created_at = now } ∷ []) }))

abbrev pub is_view : AnalyticsEvent → Bool
is_view e = str_eq e.event_type "item_view" || str_eq e.event_type "catalog_view"

abbrev pub is_created : AnalyticsEvent → Bool
is_created e = str_eq e.event_type "order_created"

-- `created_at >= NOW() - days`, with the days on the other side.
abbrev pub within_days : ℕ → ℕ → AnalyticsEvent → Bool
within_days now days e = not (ltb (e.created_at + days * 86400) now)

-- The views and orders of `GetFunnel`; the rate is orders over views.
unfoldable pub get_funnel : ℕ → Action (ℕ × ℕ)
get_funnel days = query (λ now d. some (
  (
    count (λ e. is_view e && within_days now days e) d.events,
    count (λ e. is_created e && within_days now days e) d.events,
  ),
  d,
))

abbrev pub is_active : AbTestStatus → Bool
is_active draft = true
is_active running = true
is_active _ = false

abbrev pub is_active_named : String → AbTest → Bool
is_active_named name t = str_eq t.name name && is_active t.status

abbrev pub new_test : AbTest → ℕ → Database → AbTest
new_test t now d = record t { id = d.next_id; created_at = now; updated_at = now }

-- Active tests have different names.
abbrev pub insert_test : AbTest → ℕ → Database → Option (AbTest × Database)
insert_test t now d =
    if is_active t.status && exists (is_active_named t.name) d.ab_tests
    then none
    else some (
      new_test t now d,
      record d { next_id = suc d.next_id; ab_tests = d.ab_tests ++ (new_test t now d ∷ []) },
    )

-- `CreateABTest`
unfoldable pub create_ab_test : AbTest → Action AbTest
create_ab_test t = query (insert_test t)

abbrev pub has_id : ℕ → AbTest → Bool
has_id id t = t.id == id

-- `GetABTestByID`
unfoldable pub get_ab_test_by_id : ℕ → Action (Option AbTest)
get_ab_test_by_id id = query (λ now d. some (find (has_id id) d.ab_tests, d))

-- `ListABTests`, the newest first.
unfoldable pub list_ab_tests : Action (List AbTest)
list_ab_tests = query (λ now d. some (reverse_onto [] d.ab_tests, d))

abbrev pub set_details : AbTest → ℕ → AbTest → AbTest
set_details t now r = record r {
  description = t.description;
  traffic_pct = t.traffic_pct;
  end_date = t.end_date;
  rollback_threshold_pct = t.rollback_threshold_pct;
  updated_at = now;
}

-- `UpdateABTest`
unfoldable pub update_ab_test : AbTest → Action (Unit {0})
update_ab_test t = query (λ now d.
    some (tt, record d { ab_tests = update (has_id t.id) (set_details t now) d.ab_tests }))

abbrev pub set_status : AbTestStatus → ℕ → AbTest → AbTest
set_status s now r = record r { status = s; updated_at = now }

-- `UpdateABTestStatus`; it is called with statuses that are not active, so no name clashes.
unfoldable pub update_ab_test_status : ℕ → AbTestStatus → Action (Unit {0})
update_ab_test_status id s =
    query
      (λ now d. some (tt, record d { ab_tests = update (has_id id) (set_status s now) d.ab_tests }))

-- The tag is the whole text or one of its parts between commas, as far as `LIKE` can tell.
abbrev pub carries : (String → String → Bool) → String → AnalyticsEvent → Bool
carries like tag e =
    str_eq e.ab_variant tag
    || (like e.ab_variant (String.◌++◌ tag ",%")
        || (like e.ab_variant (String.◌++◌ "%," tag)
            || like e.ab_variant (String.◌++◌ "%," (String.◌++◌ tag ",%"))))

abbrev pub is_order : AnalyticsEvent → Bool
is_order e = str_eq e.event_type "order_created" || str_eq e.event_type "order_completed"

abbrev pub tag_of : String → String → String
tag_of test variant = String.◌++◌ test (String.◌++◌ ":" variant)

-- The views and orders of a variant.
abbrev pub conversion : (String → String → Bool) → String → List AnalyticsEvent → ℕ × ℕ
conversion like tag es = (
  count (λ e. carries like tag e && is_view e) es,
  count (λ e. carries like tag e && is_order e) es,
)

-- `GetABTestConversion`
unfoldable pub get_ab_test_conversion : String → String → Action (ℕ × ℕ)
get_ab_test_conversion test variant =
    reading λ w. query (λ now d. some (conversion w.env.sql_like (tag_of test variant) d.events, d))

-- `SaveABTestResult`
unfoldable pub save_ab_test_result : AbTestResult → Action (Unit {0})
save_ab_test_result r = query (λ now d.
    some (
      tt,
      record d { ab_test_results = d.ab_test_results ++ (record r { computed_at = now } ∷ []) },
    ))
