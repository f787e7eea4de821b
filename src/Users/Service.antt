-- ===== src/Users/Service.antt =====
-- repo/backend/internal/service/user_service.go, one function for each method; the mask of an address is in
-- Users. Where a method encrypts, it takes the nonce that `rand.Reader` gives, if it gives one.
use w1t.Base.{ℕ, String, Bool, true, false, List, [], ◌∷◌, Option, none, some}
use w1t.Errors.{sentinel, conflict, not_found, plain}
use w1t.Crypto.{encrypt, hmac_hash}
use w1t.Model.User.{User, UserRole}
use w1t.Action.{Action, pure, reading, ◌>>=◌, ◌>>◌, in_context, attempt, fail_if, found}
use w1t.Auth.Store.{
  get_by_id, get_by_username, unlock_account, clear_failed_attempts, get_user_roles,
}
use w1t.Users.{Bytes}
use w1t.Users.Store

-- `dto.CreateUserRequest` and `dto.UpdateUserRequest`; no address is the empty one.
pub record CreateUserRequest : Type 0 where
  pub username : String
  pub password : String
  pub display_name : String
  pub email : Bytes

pub record UpdateUserRequest : Type 0 where
  pub display_name : Option String
  pub password : Option String
  pub email : Option Bytes

abbrev pub is_some : {A : Type 0} → Option A → Bool
is_some none = false
is_some (some a) = true

-- `crypto.HashPassword`, with the error in its context.
unfoldable pub hash_password : String → Action String
hash_password password =
    reading
      (λ w. in_context "hash password" (found (w.env.hash_password password) (plain "bcrypt")))

-- The encrypted address and its hash.
abbrev pub with_email : Option (List ℕ) → Bytes → User → Action User
with_email iv email u = reading λ w. do
  encrypted ← in_context "encrypt email" (found (encrypt w.env.aead iv email) (plain "nonce"))
  pure (record u {
    email_encrypted = some encrypted;
    email_hash = some (hmac_hash w.env.aead email);
  })

abbrev pub with_address : Option (List ℕ) → Bytes → User → Action User
with_address iv [] u = pure u
with_address iv (b ∷ bs) u = with_email iv (b ∷ bs) u

abbrev pub new_user : String → String → String → Option ℕ → User
new_user username hash display_name created_by = record {
  id = 0;
  username = username;
  password_hash = hash;
  display_name = display_name;
  email_encrypted = none;
  email_hash = none;
  is_locked = false;
  locked_until = none;
  failed_login_count = 0;
  created_by = created_by;
  created_at = 0;
  updated_at = 0;
}

-- `Create`, once the name is known to be free.
unfoldable pub enrol : Option (List ℕ) → CreateUserRequest → ℕ → Action User
enrol iv req created_by = do
  hash ← hash_password req.password
  u ← with_address iv req.email (new_user req.username hash req.display_name (some created_by))
  row ← in_context "create user" (Store.create u)
  attempt (Store.add_role row.id "buyer" created_by)
  attempt (Store.add_role row.id "seller" created_by)
  pure row

-- `Create`
unfoldable pub create : Option (List ℕ) → CreateUserRequest → ℕ → Action User
create iv req created_by = do
  existing ← in_context "check username" (get_by_username req.username)
  fail_if (is_some existing) (sentinel conflict "")
  enrol iv req created_by

-- `GetByID`
unfoldable pub get : ℕ → Action User
get id = do row ← get_by_id id; found row (sentinel not_found "")

-- `List`
unfoldable pub list : ℕ → ℕ → Action (List User × ℕ)
list page page_size = Store.list page page_size

abbrev pub with_name : Option String → User → User
with_name none u = u
with_name (some name) u = record u { display_name = name }

abbrev pub with_password : Option String → User → Action User
with_password none u = pure u
with_password (some password) u = do
  hash ← hash_password password
  pure (record u { password_hash = hash })

abbrev pub with_new_email : Option (List ℕ) → Option Bytes → User → Action User
with_new_email iv none u = pure u
with_new_email iv (some email) u = with_email iv email u

-- `Update`
unfoldable pub update_user : Option (List ℕ) → ℕ → UpdateUserRequest → Action User
update_user iv id req = do
  u ← get id
  renamed ← with_password req.password (with_name req.display_name u)
  changed ← with_new_email iv req.email renamed
  in_context "update user" (Store.update changed)
  pure changed

-- `AddRole`
unfoldable pub add_role : ℕ → String → ℕ → Action (Unit {0})
add_role user name granted_by = do u ← get user; Store.add_role user name granted_by

-- `RemoveRole`, `GetRoles`, `UnlockAccount`
unfoldable pub remove_role : ℕ → ℕ → Action (Unit {0})
remove_role user role = Store.remove_role user role

unfoldable pub get_roles : ℕ → Action (List UserRole)
get_roles user = get_user_roles user

unfoldable pub unlock : ℕ → Action (Unit {0})
unlock user = do unlock_account user; clear_failed_attempts user
