-- ===== src/Users/Entry.antt =====
-- A new user: what the request asks for, and the row that is inserted.
use w1t.Base.{
  ℕ, suc, String, Bool, true, false, ◌≡◌, refl, sym, ap, subst, ◌∙◌, ◌⊎◌, List, [], ◌∷◌, ◌++◌,
  Option, none, some, exists, All, arith, if◌then◌else◌,
}
use w1t.Errors.{Error, plain}
use w1t.Crypto.{encrypt, hmac_hash}
use w1t.Model.User.{User, UserRole}
use w1t.World.{World, Env, Database}
use w1t.Action.Rules.{Ends, proceed-Ends, recover-Ends, found-Ends}
use w1t.Auth.Store.{has_username}
use w1t.Users.{Bytes}
use w1t.Users.Store.{new_row, insert_user}
use w1t.Users.Service.{CreateUserRequest, hash_password, with_address, new_user}
use w1t.Users.Granting.{Grants}

-- The address of a user: none, or the ciphertext of the address with its hash.
abbrev pub Address : Env → Option (List ℕ) → Bytes → Option (List ℕ) → Option (List ℕ) → Type 0
Address env iv [] encrypted hash = (encrypted ≡ none) × (hash ≡ none)
Address env iv (b ∷ bs) encrypted hash =
    (c : List ℕ) × (encrypt env.aead iv (b ∷ bs) ≡ some c)
    × (encrypted ≡ some c)
    × (hash ≡ some (hmac_hash env.aead (b ∷ bs)))

-- The user that the request asks for.
pub record Fits (env : Env) (iv : Option (List ℕ)) (req : CreateUserRequest) (by : ℕ) (u : User)
    : Type 0 where
  pub username : u.username ≡ req.username
  pub display_name : u.display_name ≡ req.display_name
  pub created_by : u.created_by ≡ some by
  pub password : env.hash_password req.password ≡ some u.password_hash
  pub address : Address env iv req.email u.email_encrypted u.email_hash

-- The role of a buyer or of a seller, for the user.
pub record IsPlain (user by : ℕ) (g : UserRole) : Type 0 where
  pub holder : g.user_id ≡ user
  pub giver : g.granted_by ≡ by
  pub role : (g.role_name ≡ "buyer") ⊎ (g.role_name ≡ "seller")

-- The user `row` is new in the tables, under a name that was free.
pub record Enrolled (env : Env) (iv : Option (List ℕ)) (req : CreateUserRequest) (by : ℕ)
    (row : User) (d d' : Database) : Type 0 where
  pub fits : Fits env iv req by row
  pub free : exists (has_username req.username) d.users ≡ false
  pub id : row.id ≡ d.next_id
  pub unlocked : row.is_locked ≡ false
  pub users : d'.users ≡ d.users ++ (row ∷ [])
  pub new_roles : List UserRole
  pub roles : d'.user_roles ≡ d.user_roles ++ new_roles
  pub plain_roles : All (IsPlain row.id by) new_roles

pub hash_password-found :
    (password : String) (w : World)
    → Ends
        (λ h v. (w.env.hash_password password ≡ some h) × (v ≡ w))
        (λ e v. v ≡ w)
        (hash_password password w)
unfolding hash_password
hash_password-found password w =
    recover-Ends _ (λ e v. v ≡ w) (λ e v. v ≡ w) _ _
      (found-Ends (λ h v. (w.env.hash_password password ≡ some h) × (v ≡ w)) (λ e v. v ≡ w)
        (w.env.hash_password password) (plain "bcrypt") w (λ h. refl) (λ a h. (h, refl)))
      (λ e v h. h)

module _ (iv : Option (List ℕ)) (req : CreateUserRequest) (by : ℕ) where
  pub with_address-Fits :
      (email : Bytes) (hash : String) (w : World)
      → req.email ≡ email
      → w.env.hash_password req.password ≡ some hash
      → Ends
          (λ u v. Fits w.env iv req by u × (v ≡ w))
          (λ e v. v ≡ w)
          (with_address iv email (new_user req.username hash req.display_name (some by)) w)
  with_address-Fits [] hash w at h = (
    record {
      username = refl;
      display_name = refl;
      created_by = refl;
      password = h;
      address = subst (λ m. Address w.env iv m none none) (sym at) (refl, refl);
    },
    refl,
  )
  with_address-Fits (b ∷ bs) hash w at h =
      proceed-Ends (λ c v. (encrypt w.env.aead iv (b ∷ bs) ≡ some c) × (v ≡ w)) Q E _ _
        (recover-Ends (λ c v. (encrypt w.env.aead iv (b ∷ bs) ≡ some c) × (v ≡ w)) E E _ _
          (found-Ends _ E (encrypt w.env.aead iv (b ∷ bs)) (plain "nonce") w (λ none_there. refl)
            (λ c there. (there, refl)))
          (λ e v k. k))
        λ c v k. (
          record {
            username = refl;
            display_name = refl;
            created_by = refl;
            password = h;
            address =
                subst (λ m. Address w.env iv m (some c) (some (hmac_hash w.env.aead (b ∷ bs))))
                  (sym at) (c, k.0, refl, refl);
          },
          k.1,
        )
    where
      Q : User → World → Type 0
      Q u v = Fits w.env iv req by u × (v ≡ w)

      E : Error → World → Type 0
      E e v = v ≡ w

  -- The row that is inserted, and the grants after it.
  abbrev pub Inserted : Env → Database → User → Database → Type 0
  Inserted env d row d' =
      Fits env iv req by row
      × (exists (has_username req.username) d.users ≡ false)
      × (row.id ≡ d.next_id)
      × (row.is_locked ≡ false)
      × (d'.users ≡ d.users ++ (row ∷ []))
      × (d'.user_roles ≡ d.user_roles)

  pub insert_user-Inserted :
      (env : Env) (u row : User) (now : ℕ) (d d' : Database)
      → Fits env iv req by u
      → insert_user u now d ≡ some (row, d')
      → Inserted env d row d'
  insert_user-Inserted env u row now d d' f h = by_case _ refl h
    where
      fresh : Database
      fresh = record d { next_id = suc d.next_id; users = d.users ++ (new_row u now d ∷ []) }

      outcome : Bool → Option (User × Database)
      outcome b = if b then none else some (new_row u now d, fresh)

      by_case :
          (b : Bool)
          → exists (has_username u.username) d.users ≡ b
          → outcome b ≡ some (row, d')
          → Inserted env d row d'
      by_case true e k = ground arith
      by_case false e k =
          subst (λ (p : User × Database). Inserted env d p.0 p.1) same
            (
              record {
                username = f.username;
                display_name = f.display_name;
                created_by = f.created_by;
                password = f.password;
                address = f.address;
              },
              subst (λ n. exists (has_username n) d.users ≡ false) f.username e,
              refl,
              refl,
              refl,
              refl,
            )
        where
          same : ◌≡◌ {A = User × Database} (new_row u now d, fresh) (row, d')
          same = ground (arith, k)

  pub enrolled :
      (env : Env) (row : User) (d e d' : Database)
      → Inserted env d row e
      → Grants (IsPlain row.id by) e d'
      → Enrolled env iv req by row d d'
  enrolled env row d e d' h g = record {
    fits = h.0;
    free = h.1;
    id = h.2;
    unlocked = h.3;
    users = g.users ∙ h.4;
    new_roles = g.new;
    roles = g.added ∙ ap (λ l. l ++ g.new) h.5;
    plain_roles = g.fit;
  }
