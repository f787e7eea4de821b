-- ===== src/Middleware/Asking.antt =====
-- When the setup gate listens to the database.
use w1t.Base.{ℕ, ◌≤◌, Bool, ◌≡◌, Option, some}
use w1t.Middleware.Setup.{SetupGate, Visit}

-- The last answer came at `t` or later.
abbrev CheckedSince : ℕ → SetupGate → Type 0
CheckedSince t g = (u : ℕ) × ((g.checked ≡ some u) × (t ≤ u))

-- The request, with another answer of the database.
abbrev pub answering : Option Bool → Visit → Visit
answering admin v = record v { admin = admin }
