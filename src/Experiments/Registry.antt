-- ===== src/Experiments/Registry.antt =====
-- repo/backend/internal/service/abtest_registry.go: the experiments that may be run.
use w1t.Base.{String, List, [], ◌∷◌, map, Option, none, some, str_eq, contains, if◌then◌else◌}

pub record ExperimentComponent : Type 0 where
  pub description : String
  pub allowed_variants : List (String × String)

-- `ExperimentRegistry`
abbrev pub experiment_registry : List (String × ExperimentComponent)
experiment_registry =
    (
      "catalog_layout",
      record {
        description = "Controls the collectible catalog grid layout (CatalogPage.tsx)";
        allowed_variants =
            ("grid", "Multi-column responsive grid (default)")
            ∷ ("list", "Single-column list layout")
            ∷ [];
      },
    )
    ∷ (
      "checkout_flow",
      record {
        description = "Controls the order checkout experience (OrderDetailPage.tsx)";
        allowed_variants =
            ("standard", "Current multi-step checkout (default)")
            ∷ ("express", "Single-page express checkout")
            ∷ [];
      },
    )
    ∷ (
      "search_ranking",
      record {
        description = "Controls the collectible search/sort algorithm (CatalogPage.tsx)";
        allowed_variants =
            ("relevance", "Relevance-based ranking (default)")
            ∷ ("popular", "Popularity-weighted ranking")
            ∷ [];
      },
    )
    ∷ (
      "datetime-local-test",
      record {
        description = "Test experiment for validating datetime-local input format";
        allowed_variants = ("A", "Variant A") ∷ ("B", "Variant B") ∷ [];
      },
    )
    ∷ (
      "rfc3339-test",
      record {
        description = "Test experiment for validating RFC3339 input format";
        allowed_variants = ("A", "Variant A") ∷ ("B", "Variant B") ∷ [];
      },
    )
    ∷ []

abbrev pub component_of : String → List (String × ExperimentComponent) → Option ExperimentComponent
component_of name [] = none
component_of name ((n, c) ∷ rest) = if str_eq n name then some c else component_of name rest

-- `variantKeys`
abbrev pub variant_keys : ExperimentComponent → List String
variant_keys c = map (λ (v : String × String). v.0) c.allowed_variants

-- The messages of `ValidateExperiment`, which list the keys of a map in some order.
pub data Issue : Type 0 where
  unknown_experiment unknown_control unknown_test same_variants : Issue

abbrev pub check_variants : String → String → ExperimentComponent → Option Issue
check_variants control test c =
    if contains control (variant_keys c)
    then (if contains test (variant_keys c)
        then (if str_eq control test then some same_variants else none)
        else some unknown_test)
    else some unknown_control

abbrev pub check_component : String → String → Option ExperimentComponent → Option Issue
check_component control test none = some unknown_experiment
check_component control test (some c) = check_variants control test c

-- `ValidateExperiment`; no message is `none`.
unfoldable pub validate_experiment : String → String → String → Option Issue
validate_experiment name control test =
    check_component control test (component_of name experiment_registry)

-- `GetRegistryDTO`
unfoldable pub get_registry : List (String × (String × List String))
get_registry =
    map (λ (e : String × ExperimentComponent). (e.0, (e.1.description, variant_keys e.1)))
      experiment_registry
