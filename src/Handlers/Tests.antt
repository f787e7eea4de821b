-- ===== src/Handlers/Tests.antt =====
-- Pages of a short list, and the setup of tables that hold no user.
use w1t.Base.{ℕ, ◌≡◌, refl, true, false, List, [], ◌∷◌, length, reverse_onto, str_eq}
use w1t.Model.User.{Role}
use w1t.World.{Database}
use w1t.Action.{world_of, recover, proceed, query}
use w1t.Action.Rules.{Ends}
use w1t.Action.Calm.{Never}
use w1t.Samples.{empty_tables, at_rest, test_env}
use w1t.Users.Store
use w1t.Users.Service.{hash_password}
use w1t.Auth.Store.{admin_exists}
use w1t.Handlers.{pagination, total_pages, bind_and_validate}
use w1t.Handlers.Pages.{first_pages, pages_cover}
use w1t.Handlers.Setup.{BootstrapAdminRequest, create_admin, open_setup, bootstrap}
use w1t.Handlers.Installing.{Outcome, has_admin}
use w1t.Handlers.Opening.{bootstrap-Outcome}

abbrev rows : List ℕ
rows = 1 ∷ 2 ∷ 3 ∷ 4 ∷ 5 ∷ []

two_per_page : first_pages (total_pages 5 2) 2 rows ≡ reverse_onto [] rows
unfolding total_pages
two_per_page = refl

replaced : pagination 0 101 ≡ (1, 20)
unfolding pagination
replaced = refl

pages_cover_example :
    first_pages (total_pages (length rows) (pagination 1 2).1) (pagination 1 2).1 rows
    ≡ reverse_onto [] rows
pages_cover_example = pages_cover 1 2 rows

abbrev administrator : Role
administrator = record { id = 3; name = "administrator"; description = "" }

abbrev with_role : Database
with_role = record empty_tables { roles = administrator ∷ [] }

-- A password of one letter.
abbrev weak : BootstrapAdminRequest
weak = record { username = "eve"; password = "x"; display_name = "Eve" }

-- The request is refused with 422, and there is an administrator all the same.
installed_though_refused :
    has_admin (world_of (bootstrap true false weak (at_rest with_role))).db ≡ true
unfolding str_eq bootstrap admin_exists open_setup create_admin hash_password Store.create
    Store.add_role bind_and_validate recover proceed query
installed_though_refused = refl

bootstrap-Outcome_example :
    Ends
      (λ rs v. Outcome weak true false test_env with_role rs v.db)
      Never
      (bootstrap true false weak (at_rest with_role))
unfolding str_eq
bootstrap-Outcome_example =
    bootstrap-Outcome weak true false (at_rest with_role)
      (record { role = administrator; stored = refl; below = tt })
