-- ===== src/Handlers.antt =====
-- `pagination`, `paginatedResponse` and `bindAndValidate` of repo/backend/internal/handler/helpers.go.
pub mod Pages
pub mod Setup
pub mod Installing
pub mod Opening
mod Tests
use w1t.Base.{ℕ, ◌+◌, ◌-◌, ◌/◌, Bool, true, false, ◌||◌, List, [], ◌∷◌, ltb, if◌then◌else◌}
use w1t.Errors.{Response}

-- `pagination`, of the numbers that `strconv.Atoi` reads; a negative one is read as 0 here, for it is
-- replaced as 0 is.
unfoldable pub pagination : ℕ → ℕ → ℕ × ℕ
pagination page page_size =
    (if ltb page 1 then 1 else page, if ltb page_size 1 || ltb 100 page_size then 20 else page_size)

-- `totalPages` of `paginatedResponse`, the quotient rounded up. The source divides floats, which comes
-- to the same for every total below 2 ^ 46.
unfoldable pub total_pages : ℕ → ℕ → ℕ
total_pages total page_size = (total + (page_size - 1)) / page_size

-- What `bindAndValidate` writes, where `c.Bind` reads the body or not and the fields are valid or not.
-- It gives back the error of `c.JSON`, which is nil once the response is written: the handlers go on
-- after an invalid request.
unfoldable pub bind_and_validate : (bound valid : Bool) → List Response
bind_and_validate false valid = record { status = 400; code = "ERR_VALIDATION" } ∷ []
bind_and_validate true false = record { status = 422; code = "ERR_VALIDATION" } ∷ []
bind_and_validate true true = []
