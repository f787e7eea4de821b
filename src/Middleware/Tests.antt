-- ===== src/Middleware/Tests.antt =====
-- Requests at the checks before the handlers.
use w1t.Base.{
  ◌++◌, ℕ, String, Bool, true, false, ◌≡◌, refl, ◌⊎◌, ◌↔◌, List, [], ◌∷◌, Option, none, some,
  str_eq, if◌then◌else◌, exists,
}
use w1t.Middleware.{
  IpRule, next, ip_filter, csrf, blocked, filter_ip, is_denied, has_allow_rules, is_allowed,
}
use w1t.Middleware.Setup.{Visit, closed_gate, is_complete, require_setup, serve}
use w1t.Middleware.Opening.{sees_admin, Passes, gate_opens_for_good}
use w1t.Middleware.Passage.{
  covers, has_action, ip_filter-next, SafeMethod, ExemptPath, TokenMatches, csrf-next,
}

-- One block of addresses, read as the two addresses `true` and `false`, and one with `true` only.
abbrev blocks : String → Bool → Option Bool
blocks cidr ip =
    if str_eq cidr "10.0.0.0/8"
    then some true
    else if str_eq cidr "10.0.0.1/32"
    then some ip
    else none

abbrev rule : ℕ → String → String → IpRule
rule n cidr action = record {
  id = n;
  cidr = cidr;
  action = action;
  created_by = 7;
  created_at = 1000;
}

abbrev rules : List IpRule
rules = rule 1 "10.0.0.0/8" "allow" ∷ rule 2 "broken" "deny" ∷ rule 3 "10.0.0.1/32" "deny" ∷ []

denied : ip_filter blocks (some rules) (some true) ≡ blocked
unfolding ip_filter filter_ip is_denied has_allow_rules is_allowed str_eq
denied = refl

ip_filter-next_example : (ip_filter blocks (some rules) (some false) ≡ next) ↔ (
    (exists (covers blocks false "deny") rules ≡ false)
    × ((exists (has_action blocks false "allow") rules ≡ false)
        ⊎ (exists (covers blocks false "allow") rules ≡ true)))
ip_filter-next_example = ip_filter-next blocks false rules

csrf-next_example :
    (csrf "POST" "/api/orders" (some "token") "token" ≡ next)
    ↔ (SafeMethod "POST" ⊎ (ExemptPath "/api/orders" ⊎ TokenMatches (some "token") "token"))
csrf-next_example = csrf-next "POST" "/api/orders" (some "token") "token"

-- The database fails, then has no administrator; the third request comes too early to ask again.
abbrev early : List Visit
early =
    record { now = 100; admin = none }
    ∷ record { now = 101; admin = some false }
    ∷ record { now = 103; admin = some true }
    ∷ []

abbrev admitted_visit : Visit
admitted_visit = record { now = 104; admin = some true }

abbrev lost_visit : Visit
lost_visit = record { now = 110; admin = none }

gate_opens_for_good_example :
    (exists sees_admin (early ++ admitted_visit ∷ []) ≡ true)
    × Passes lost_visit (serve (early ++ admitted_visit ∷ lost_visit ∷ []) closed_gate)
unfolding serve require_setup is_complete
gate_opens_for_good_example =
    gate_opens_for_good early admitted_visit (lost_visit ∷ []) lost_visit refl

-- Someone looks in vain, and an administrator comes at once.
abbrev in_vain : Visit
in_vain = record { now = 101; admin = some false }

abbrev soon_after : Visit
soon_after = record { now = 103; admin = some true }
