-- ===== src/Handlers/Setup.antt =====
-- repo/backend/internal/handler/setup_handler.go. A handler gives the responses that it writes, in order:
-- the status that the client sees is that of the first.
use w1t.Base.{String, Bool, true, false, List, [], ◌∷◌, ◌++◌, none}
use w1t.Errors.{Response}
use w1t.Action.{Action, ◌>>=◌, ◌>>◌, pure, catch}
use w1t.Auth.Store.{admin_exists}
use w1t.Users.Store
use w1t.Users.Service.{hash_password, new_user}
use w1t.Handlers.{bind_and_validate}

-- `dto.BootstrapAdminRequest`
pub record BootstrapAdminRequest : Type 0 where
  pub username : String
  pub password : String
  pub display_name : String

abbrev pub internal : Response
internal = record { status = 500; code = "ERR_INTERNAL" }

abbrev pub complete : Response
complete = record { status = 409; code = "ERR_CONFLICT" }

abbrev pub created : Response
created = record { status = 201; code = "" }

-- `Status`: whether there is an administrator, or a failure.
unfoldable pub status : Action Bool
status = admin_exists

-- `Bootstrap`, after the request is read.
unfoldable pub create_admin : BootstrapAdminRequest → Action Response
create_admin req = do
  hash ← hash_password req.password
  u ← Store.create (new_user req.username hash req.display_name none)
  Store.add_role u.id "administrator" u.id
  pure created

-- `Bootstrap`, where there is no administrator; of a body that cannot be bound, `req` is what was read.
unfoldable pub open_setup : Bool → Bool → BootstrapAdminRequest → Action (List Response)
open_setup bound valid req = do
  r ← catch (create_admin req) (λ e. pure internal)
  pure (bind_and_validate bound valid ++ (r ∷ []))

abbrev pub unless_complete : Bool → Action (List Response) → Action (List Response)
unless_complete true k = pure (complete ∷ [])
unless_complete false k = k

-- `Bootstrap`
unfoldable pub bootstrap : Bool → Bool → BootstrapAdminRequest → Action (List Response)
bootstrap bound valid req =
    catch (do exists ← admin_exists; unless_complete exists (open_setup bound valid req))
      (λ e. pure (internal ∷ []))
