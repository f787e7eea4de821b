-- ===== src/Handlers/Installing.antt =====
-- What the first administrator adds to the tables, and what setup can answer.
use w1t.Base.{
  ℕ, suc, ◌<◌, String, Bool, true, false, ◌≡◌, refl, sym, ap, subst, ◌∙◌, ◌⊎◌, List, [], ◌∷◌, ◌++◌,
  Option, none, some, find, exists, All, arith, str_eq, str_eq_iff, find_holds, if◌then◌else◌,
}
use w1t.Errors.{Response}
use w1t.Model.User.{User, Role, UserRole}
use w1t.World.{Env, Database}
use w1t.Auth.Store.{has_username}
use w1t.Users.Store.{has_role_name, is_grant, new_grant, insert_grant, new_row, insert_user}
use w1t.Users.Service.{new_user}
use w1t.Handlers.{bind_and_validate}
use w1t.Handlers.Setup.{BootstrapAdminRequest, internal, complete, created}

abbrev pub is_admin : UserRole → Bool
is_admin g = str_eq g.role_name "administrator"

-- Whether there is an administrator.
abbrev pub has_admin : Database → Bool
has_admin d = exists is_admin d.user_roles

-- The migrations have made the role, and roles are granted to users that exist.
pub record IsReady (d : Database) : Type 0 where
  pub role : Role
  pub stored : find (has_role_name "administrator") d.roles ≡ some role
  pub below : All (λ g. g.user_id < d.next_id) d.user_roles

-- The user of the request is new in the tables, under a name that was free.
pub record Installed (env : Env) (req : BootstrapAdminRequest) (row : User) (d d' : Database)
    : Type 0 where
  pub username : row.username ≡ req.username
  pub password : env.hash_password req.password ≡ some row.password_hash
  pub id : row.id ≡ d.next_id
  pub free : exists (has_username req.username) d.users ≡ false
  pub users : d'.users ≡ d.users ++ (row ∷ [])

module _ (req : BootstrapAdminRequest) where
  -- By the answer of a request for which there was no administrator.
  abbrev pub Answered : Env → Database → Response → Database → Type 0
  Answered env d r d' =
      ((r ≡ internal)
        × ((d' ≡ d) ⊎ ((row : User) × Installed env req row d d' × (d'.user_roles ≡ d.user_roles))))
      ⊎ ((r ≡ created) × ((row : User) × Installed env req row d d') × (has_admin d' ≡ true))

  -- By whether there was an administrator.
  abbrev pub Outcome : (bound valid : Bool) → Env → Database → List Response → Database → Type 0
  Outcome bound valid env d rs d' =
      ((d' ≡ d) × (rs ≡ internal ∷ []))
      ⊎ (((d' ≡ d) × (rs ≡ complete ∷ []) × (has_admin d ≡ true))
          ⊎ ((has_admin d ≡ false)
              × ((r : Response) × (rs ≡ bind_and_validate bound valid ++ (r ∷ []))
                  × Answered env d r d')))

exists_append :
    {A : Type 0} (p : A → Bool) (xs : List A) (y : A)
    → p y ≡ true
    → exists p (xs ++ (y ∷ [])) ≡ true
exists_append p [] y h = ground (arith, h)
exists_append p (x ∷ xs) y h = ground (arith, exists_append p xs y h)

not_granted :
    (n role : ℕ) (gs : List UserRole)
    → All (λ g. g.user_id < n) gs
    → exists (is_grant n role) gs ≡ false
not_granted n role [] h = refl
not_granted n role (g ∷ gs) h = ground (arith, h.0, not_granted n role gs h.1)

granted-admin :
    (user now : ℕ) (r : Role) (d : Database)
    → r.name ≡ "administrator"
    → All (λ g. g.user_id < user) d.user_roles
    → has_admin (insert_grant user user now (some r) d) ≡ true
granted-admin user now r d named below =
    subst
      (λ b.
        has_admin (
          if b
          then d
          else record d { user_roles = d.user_roles ++ (new_grant user user now r ∷ []) })
        ≡ true)
      (sym (not_granted user r.id d.user_roles below))
      (exists_append is_admin d.user_roles (new_grant user user now r)
        ((str_eq_iff r.name "administrator").1 named))

pub grant-users :
    (user by now : ℕ) (o : Option Role) (d : Database)
    → (insert_grant user by now o d).users ≡ d.users
grant-users user by now none d = refl
grant-users user by now (some r) d = by_case (exists (is_grant user r.id) d.user_roles)
  where
    after : Bool → Database
    after b =
        if b then d else record d { user_roles = d.user_roles ++ (new_grant user by now r ∷ []) }

    by_case : (b : Bool) → (after b).users ≡ d.users
    by_case true = refl
    by_case false = refl

module _ (req : BootstrapAdminRequest) (env : Env) where
  pub Installed-users :
      {row : User} {d e d' : Database}
      → e.users ≡ d'.users
      → Installed env req row d d'
      → Installed env req row d e
  Installed-users same i = record {
    username = i.username;
    password = i.password;
    id = i.id;
    free = i.free;
    users = same ∙ i.users;
  }

  -- The row is there, and no role is.
  abbrev pub Bare : Database → User → Database → Type 0
  Bare d row d' = Installed env req row d d' × (d'.user_roles ≡ d.user_roles) × (d'.roles ≡ d.roles)

  pub insert_user-Bare :
      (hash : String) (row : User) (now : ℕ) (d d' : Database)
      → env.hash_password req.password ≡ some hash
      → insert_user (new_user req.username hash req.display_name none) now d ≡ some (row, d')
      → Bare d row d'
  insert_user-Bare hash row now d d' hashed h = by_case _ refl h
    where
      u : User
      u = new_user req.username hash req.display_name none

      fresh : Database
      fresh = record d { next_id = suc d.next_id; users = d.users ++ (new_row u now d ∷ []) }

      outcome : Bool → Option (User × Database)
      outcome b = if b then none else some (new_row u now d, fresh)

      by_case :
          (b : Bool)
          → exists (has_username req.username) d.users ≡ b
          → outcome b ≡ some (row, d')
          → Bare d row d'
      by_case true e k = ground arith
      by_case false e k =
          subst (λ (p : User × Database). Bare d p.0 p.1) same
            (
              record { username = refl; password = hashed; id = refl; free = e; users = refl },
              refl,
              refl,
            )
        where
          same : ◌≡◌ {A = User × Database} (new_row u now d, fresh) (row, d')
          same = ground (arith, k)

  pub granted :
      (row : User) (now : ℕ) (d x : Database)
      → IsReady d
      → Bare d row x
      → has_admin (insert_grant row.id row.id now (find (has_role_name "administrator") x.roles) x)
        ≡ true
  granted row now d x ready b =
      subst (λ o. has_admin (insert_grant row.id row.id now o x) ≡ true)
        (sym (ap (find (has_role_name "administrator")) b.2 ∙ ready.stored))
        (granted-admin row.id now ready.role x
          ((str_eq_iff ready.role.name "administrator").0
            (find_holds (has_role_name "administrator") d.roles ready.stored))
          (subst (λ gs. All (λ (g : UserRole). g.user_id < row.id) gs) (sym b.1)
            (subst (λ n. All (λ (g : UserRole). g.user_id < n) d.user_roles) (sym b.0.id)
              ready.below)))
