-- ===== src/Experiments/Service.antt =====
-- repo/backend/internal/service/abtest_service.go: the methods that write, and how dates are read.
use w1t.Base.{
  ℕ, String, Bool, true, false, not, ◌&&◌, List, [], ◌∷◌, Option, none, some, leb, if◌then◌else◌,
}
use w1t.Errors.{Error, sentinel, store, wrapped, duplicate_key, not_found, validation, conflict}
use w1t.Model.Analytics.{AbTest, AbTestStatus, draft, running, rolled_back, completed}
use w1t.Action.{Action, pure, raise, reading, ◌>>=◌, ◌>>◌, catch, in_context, fail_if, found}
use w1t.Experiments.{is_running}
use w1t.Experiments.Store.{create_ab_test, get_ab_test_by_id, update_ab_test, update_ab_test_status}
use w1t.Experiments.Registry.{Issue, validate_experiment}

-- `dto.CreateABTestRequest` and `dto.UpdateABTestRequest`
pub record CreateAbTestRequest : Type 0 where
  pub name : String
  pub description : String
  pub traffic_pct : ℕ
  pub start_date : String
  pub end_date : String
  pub control_variant : String
  pub test_variant : String
  pub rollback_threshold_pct : ℕ

pub record UpdateAbTestRequest : Type 0 where
  pub description : Option String
  pub traffic_pct : Option ℕ
  pub end_date : Option String
  pub rollback_threshold_pct : Option ℕ

abbrev pub or_else : {A : Type 0} → Option A → A → A
or_else none a = a
or_else (some b) a = b

-- The text of the error is the message of the issue.
abbrev pub no_issue : Option Issue → Action (Unit {0})
no_issue none = pure tt
no_issue (some i) = raise (sentinel validation "")

-- What the database answers when an active test has the name already.
abbrev pub conflict_or : Error → Error
conflict_or (store duplicate_key) =
    sentinel conflict "an active A/B test with this name already exists"
conflict_or e = wrapped "create A/B test" e

abbrev pub is_draft : AbTestStatus → Bool
is_draft draft = true
is_draft _ = false

-- `Rollback` and `Complete`: a test that runs is given the status.
abbrev pub end_test : AbTestStatus → ℕ → Action (Unit {0})
end_test s id = do
  row ← get_ab_test_by_id id
  t ← found row (sentinel not_found "")
  fail_if (not (is_running t)) (sentinel validation "test is not running")
  update_ab_test_status id s

-- `Rollback`
unfoldable pub rollback : ℕ → Action (Unit {0})
rollback id = end_test rolled_back id

-- `Complete`
unfoldable pub complete : ℕ → Action (Unit {0})
complete id = end_test completed id

-- `time.Parse` is a parameter: the layout, the text, and the time if it fits.
module _ (time_parse : String → String → Option ℕ) where
  abbrev pub first_fit : String → List String → Option ℕ
  first_fit s [] = none
  first_fit s (f ∷ fs) = elim (time_parse f s) [ none ↦ first_fit s fs | some t ↦ some t ]

  -- `parseFlexibleDate`
  unfoldable pub parse_flexible_date : String → Option ℕ
  parse_flexible_date s = first_fit s (
      "2006-01-02T15:04" ∷ "2006-01-02T15:04:05Z07:00" ∷ "2006-01-02T15:04:05"
      ∷ "01/02/2006 3:04 PM" ∷ [])

  abbrev pub test_of : CreateAbTestRequest → ℕ → ℕ → ℕ → ℕ → AbTest
  test_of req start finish by now = record {
    id = 0;
    name = req.name;
    description = req.description;
    status = if leb start now then running else draft;
    traffic_pct = req.traffic_pct;
    start_date = start;
    end_date = finish;
    control_variant = req.control_variant;
    test_variant = req.test_variant;
    rollback_threshold_pct = req.rollback_threshold_pct;
    created_by = by;
    created_at = 0;
    updated_at = 0;
  }

  -- `Create`
  unfoldable pub create : CreateAbTestRequest → ℕ → Action AbTest
  create req by = do
    no_issue (validate_experiment req.name req.control_variant req.test_variant)
    start ←
        found (parse_flexible_date req.start_date) (sentinel validation "invalid start_date format")
    finish ←
        found (parse_flexible_date req.end_date) (sentinel validation "invalid end_date format")
    reading
        λ w. catch (create_ab_test (test_of req start finish by w.now)) (λ e. raise (conflict_or e))

  abbrev pub new_end : Option String → ℕ → Action ℕ
  new_end none old = pure old
  new_end (some s) old =
      found (parse_flexible_date s) (sentinel validation "invalid end_date format")

  -- `Update`
  unfoldable pub update_test : ℕ → UpdateAbTestRequest → Action AbTest
  update_test id req = do
    row ← get_ab_test_by_id id
    t ← found row (sentinel not_found "")
    fail_if (not (is_draft t.status) && not (is_running t)) (sentinel validation "cannot update")
    finish ← new_end req.end_date t.end_date
    let changed : AbTest = record t {
      description = or_else req.description t.description;
      traffic_pct = or_else req.traffic_pct t.traffic_pct;
      end_date = finish;
      rollback_threshold_pct = or_else req.rollback_threshold_pct t.rollback_threshold_pct;
    }
    in_context "update A/B test" (update_ab_test changed)
    pure changed
