-- ===== src/Users/Store.antt =====
-- repo/backend/internal/store/user_store.go: the statements on users and roles that login does not need;
-- the others are in Auth.Store.
use w1t.Base.{
  ℕ, suc, ◌==◌, String, Bool, false, not, ◌&&◌, List, [], ◌∷◌, ◌++◌, map, Option, none, some, find,
  exists, select, str_eq, length, page_of, if◌then◌else◌,
}
use w1t.Model.User.{User, Role, UserRole}
use w1t.World.{Database}
use w1t.Action.{Action, ◌>>=◌, pure, query}
use w1t.Auth.Store.{has_username, update_user}

-- The row that `Create` inserts; the other columns have their defaults.
abbrev pub new_row : User → ℕ → Database → User
new_row u now d = record {
  id = d.next_id;
  username = u.username;
  password_hash = u.password_hash;
  display_name = u.display_name;
  email_encrypted = u.email_encrypted;
  email_hash = u.email_hash;
  is_locked = false;
  locked_until = none;
  failed_login_count = 0;
  created_by = u.created_by;
  created_at = now;
  updated_at = now;
}

-- User names are unique.
abbrev pub insert_user : User → ℕ → Database → Option (User × Database)
insert_user u now d =
    if exists (has_username u.username) d.users
    then none
    else some (
      new_row u now d,
      record d { next_id = suc d.next_id; users = d.users ++ (new_row u now d ∷ []) },
    )

-- `Create`; of the row that it makes, the method gives back the id and the times.
unfoldable pub create : User → Action User
create u = query (insert_user u)

abbrev pub set_profile : User → User → User
set_profile u row = record row {
  display_name = u.display_name;
  password_hash = u.password_hash;
  email_encrypted = u.email_encrypted;
  email_hash = u.email_hash;
}

-- `Update`
unfoldable pub update : User → Action (Unit {0})
update u = update_user u.id (set_profile u)

-- What `List` reads of a row; the other fields are left at zero.
abbrev pub listed : User → User
listed u = record u {
  password_hash = "";
  email_encrypted = none;
  email_hash = none;
  failed_login_count = 0;
  created_by = none;
}

-- `List`: the newest first.
unfoldable pub list : ℕ → ℕ → Action (List User × ℕ)
list page page_size = do
  total ← query (λ now d. some (length d.users, d))
  rows ← query (λ now d. some (map listed (page_of page page_size d.users), d))
  pure (rows, total)

abbrev pub has_role_name : String → Role → Bool
has_role_name name r = str_eq r.name name

abbrev pub is_grant : ℕ → ℕ → UserRole → Bool
is_grant user role g = g.user_id == user && g.role_id == role

abbrev pub new_grant : ℕ → ℕ → ℕ → Role → UserRole
new_grant user by now r = record {
  user_id = user;
  role_id = r.id;
  role_name = r.name;
  granted_by = by;
  granted_at = now;
}

-- `INSERT … SELECT … ON CONFLICT DO NOTHING`: no row where there is no role, or where the user has it.
abbrev pub insert_grant : ℕ → ℕ → ℕ → Option Role → Database → Database
insert_grant user by now none d = d
insert_grant user by now (some r) d =
    if exists (is_grant user r.id) d.user_roles
    then d
    else record d { user_roles = d.user_roles ++ (new_grant user by now r ∷ []) }

-- `AddRole`
unfoldable pub add_role : ℕ → String → ℕ → Action (Unit {0})
add_role user name by =
    query (λ now d. some (tt, insert_grant user by now (find (has_role_name name) d.roles) d))

-- `RemoveRole`
unfoldable pub remove_role : ℕ → ℕ → Action (Unit {0})
remove_role user role = query (λ now d.
    some (tt, record d { user_roles = select (λ g. not (is_grant user role g)) d.user_roles }))

-- `GetRoleByName`
unfoldable pub get_role_by_name : String → Action (Option Role)
get_role_by_name name = query (λ now d. some (find (has_role_name name) d.roles, d))
