-- ===== src/Experiments.antt =====
-- repo/backend/internal/service/abtest_service.go (AssignVariant, GetAssignments), resolveABVariant
-- of collectible_service.go, and ListRunningABTests of internal/store/analytics_store.go.
pub mod Rules
pub mod Store
pub mod Registry
pub mod Service
pub mod Evaluator
pub mod Judgement
pub mod Lifecycle
pub mod Upkeep
pub mod Rounds
pub mod History
mod Tests
use Prim.Native.Char.{Char, code}
use Prim.Native.String
use Prim.Native.Nat.{bit_xor}
use w1t.Base.{
  ℕ, ◌+◌, ◌*◌, ◌/◌, ◌%◌, String, Bool, true, false, List, [], ◌∷◌, ◌++◌, map, Option, none, some,
  ltb, str_eq, select, if◌then◌else◌,
}
use w1t.Model.Analytics.{AbTest, AbTestStatus, running, AnalyticsEvent}
use w1t.World.{World, Database, record_event}
use w1t.Action.{Action, pure, reading, ◌>>=◌, catch, query, spawn}

-- The UTF-8 encoding of a code point, `[]byte(s)` one rune at a time.
unfoldable pub utf8 : ℕ → List ℕ
utf8 c =
    if ltb c 128
    then c ∷ []
    else if ltb c 2048
    then (192 + c / 64) ∷ (128 + c % 64) ∷ []
    else if ltb c 65536
    then (224 + c / 4096) ∷ (128 + c / 64 % 64) ∷ (128 + c % 64) ∷ []
    else (240 + c / 262144) ∷ (128 + c / 4096 % 64) ∷ (128 + c / 64 % 64) ∷ (128 + c % 64) ∷ []

unfoldable pub bytes : String → List ℕ
bytes String.[] = []
bytes (String.◌∷◌ c s) = utf8 (code c) ++ bytes s

-- `hash/fnv`'s `New32a`, `Write` and `Sum32`.
unfoldable pub fnv32a : ℕ → List ℕ → ℕ
fnv32a h [] = h
fnv32a h (b ∷ bs) = fnv32a (bit_xor h b * 16777619 % 4294967296) bs

abbrev pub offset_basis : ℕ
offset_basis = 2166136261

-- The bucket, `int(h.Sum32() % 100)`.
unfoldable pub bucket : String → String → ℕ
bucket user_id test_name = fnv32a offset_basis (bytes (String.◌++◌ user_id test_name)) % 100

unfoldable pub assign_variant : String → String → ℕ → String
assign_variant user_id test_name traffic_pct =
    if ltb (bucket user_id test_name) traffic_pct then "test" else "control"

-- `variantName` of a test for a user.
unfoldable pub variant_name : String → AbTest → String
variant_name user_id t =
    if str_eq (assign_variant user_id t.name t.traffic_pct) "test"
    then t.test_variant
    else t.control_variant

abbrev pub is_running : AbTest → Bool
is_running t = elim t.status [ running ↦ true | _ ↦ false ]

-- `SELECT … FROM ab_tests WHERE status = 'running'`
unfoldable pub list_running_ab_tests : Action (List AbTest)
list_running_ab_tests = query (λ now d. some (select is_running d.ab_tests, d))

-- `GetAssignments`: the name of each running test with the variant shown.
unfoldable pub get_assignments : String → Action (List (String × String))
get_assignments user_id = do
  tests ← list_running_ab_tests
  pure (map (λ t. (t.name, variant_name user_id t)) tests)

-- `strings.Join(parts, ",")`
unfoldable pub join : List String → String
join [] = ""
join (s ∷ []) = s
join (s ∷ t ∷ rest) = String.◌++◌ s (String.◌++◌ "," (join (t ∷ rest)))

-- `t.Name + ":" + variantName`
unfoldable pub variant_tag : String → AbTest → String
variant_tag user_id t = String.◌++◌ t.name (String.◌++◌ ":" (variant_name user_id t))

unfoldable pub resolve_for : Option ℕ → Bool → (ℕ → String) → Action String
resolve_for none has_analytics show = pure ""
resolve_for (some u) false show = pure ""
resolve_for (some u) true show = do
  tests ← catch list_running_ab_tests (λ e. pure [])
  pure (join (map (variant_tag (show u)) tests))

-- `resolveABVariant`
unfoldable pub resolve_ab_variant : Option ℕ → Action String
resolve_ab_variant user = reading (λ w. resolve_for user w.env.has_analytics w.env.uuid_string)

unfoldable pub emit_for : Bool → Option ℕ → String → Option ℕ → Action (Unit {0})
emit_for false user event_type collectible = pure tt
emit_for true user event_type collectible = do
  variant ← resolve_ab_variant user
  spawn (
      record_event (record {
        user_id = user;
        event_type = event_type;
        collectible_id = collectible;
        session_id = "server";
        ab_variant = variant;
        created_at = 0;
      }))

-- `emitEvent` of order_service.go, which collectible_service.go writes out at each place.
unfoldable pub emit_event : Option ℕ → String → Option ℕ → Action (Unit {0})
emit_event user event_type collectible =
    reading (λ w. emit_for w.env.has_analytics user event_type collectible)
