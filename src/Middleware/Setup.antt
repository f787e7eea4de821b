-- ===== src/Middleware/Setup.antt =====
-- repo/backend/internal/middleware/setup.go: the gate that holds requests back until an administrator
-- exists. Requests pass its two locks one after the other; the zero time of `checked` is `none`.
use w1t.Base.{ℕ, ◌-◌, Bool, true, false, not, List, [], ◌∷◌, Option, none, some, ltb, if◌then◌else◌}
use w1t.Middleware.{Admission, next, refuse}

-- The variables that `RequireSetup` closes over.
pub record SetupGate : Type 0 where
  pub complete : Bool
  pub checked : Option ℕ

abbrev pub closed_gate : SetupGate
closed_gate = record { complete = false; checked = none }

-- A request: when it comes, and what `AdminExists` answers then, `none` where the database fails.
pub record Visit : Type 0 where
  pub now : ℕ
  pub admin : Option Bool

abbrev pub is_stale : ℕ → Option ℕ → Bool
is_stale now none = true
is_stale now (some checked) = ltb 2 (now - checked)

abbrev pub note_answer : ℕ → Option Bool → SetupGate → Bool × SetupGate
note_answer now none g = (false, g)
note_answer now (some found) g =
    (found, record { complete = if found then true else g.complete; checked = some now })

-- `isComplete`.
unfoldable pub is_complete : Visit → SetupGate → Bool × SetupGate
is_complete v g =
    if g.complete
    then (true, g)
    else if not (is_stale v.now g.checked)
    then (false, g)
    else note_answer v.now v.admin g

-- `RequireSetup`.
unfoldable pub require_setup : Visit → SetupGate → Admission × SetupGate
require_setup v g =
    let r = is_complete v g in
    (if r.0 then next else refuse (record { status = 503; code = "ERR_SETUP_REQUIRED" }), r.1)

-- Requests one after the other.
unfoldable pub serve : List Visit → SetupGate → SetupGate
serve [] g = g
serve (v ∷ vs) g = serve vs (require_setup v g).1
