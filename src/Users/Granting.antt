-- ===== src/Users/Granting.antt =====
-- What a grant of a role adds.
use mathlib.Core.List.{append_assoc, append-nil}
use w1t.Base.{
  ℕ, String, Bool, true, false, ◌≡◌, refl, sym, ap, subst, ◌∙◌, List, [], ◌∷◌, ◌++◌, Option, none,
  some, find, exists, All, All-append, find_holds, str_eq_iff, arith, if◌then◌else◌,
}
use w1t.Model.User.{Role, UserRole}
use w1t.World.{World, Database}
use w1t.Action.{attempt}
use w1t.Action.Rules.{Ends, recover-Ends, query-Ends}
use w1t.Action.Calm.{Never}
use w1t.Users.Store.{has_role_name, is_grant, new_grant, insert_grant, add_role}

-- A grant to the user, by the other, of a role with the name.
abbrev pub IsGrantOf : ℕ → ℕ → String → UserRole → Type 0
IsGrantOf user by name g = (g.user_id ≡ user) × (g.granted_by ≡ by) × (g.role_name ≡ name)

-- From `d` to `d'`, at most such grants are new among the users and their roles.
pub record Grants (P : UserRole → Type 0) (d d' : Database) : Type 0 where
  pub users : d'.users ≡ d.users
  pub new : List UserRole
  pub added : d'.user_roles ≡ d.user_roles ++ new
  pub fit : All P new

module _ (P : UserRole → Type 0) where
  pub no-Grants : {d d' : Database} → d' ≡ d → Grants P d d'
  no-Grants {d} {d'} h = record {
    users = ap (λ (x : Database). x.users) h;
    new = [];
    added = ap (λ (x : Database). x.user_roles) h ∙ sym (append-nil d.user_roles);
    fit = tt;
  }

  pub Grants-trans : {d e f : Database} → Grants P d e → Grants P e f → Grants P d f
  Grants-trans {d} {e} {f} h k = record {
    users = k.users ∙ h.users;
    new = h.new ++ k.new;
    added = k.added ∙ ap (λ l. l ++ k.new) h.added ∙ append_assoc d.user_roles h.new k.new;
    fit = All-append P h.new k.new h.fit k.fit;
  }

module _ (user by : ℕ) (name : String) (P : UserRole → Type 0)
    (holds : (g : UserRole) → IsGrantOf user by name g → P g) where
  insert_grant-Grants :
      (now : ℕ) (d : Database) (o : Option Role)
      → find (has_role_name name) d.roles ≡ o
      → Grants P d (insert_grant user by now o d)
  insert_grant-Grants now d none h = no-Grants P refl
  insert_grant-Grants now d (some r) h = by_case (exists (is_grant user r.id) d.user_roles)
    where
      named : r.name ≡ name
      named = (str_eq_iff r.name name).0 (find_holds (has_role_name name) d.roles h)

      by_case :
          (b : Bool)
          → Grants P d (
              if b
              then d
              else record d { user_roles = d.user_roles ++ (new_grant user by now r ∷ []) })
      by_case true = no-Grants P refl
      by_case false = record {
        users = refl;
        new = new_grant user by now r ∷ [];
        added = refl;
        fit = (holds (new_grant user by now r) (refl, refl, named), tt);
      }

  pub attempt-add_role-Grants :
      (w : World) → Ends (λ a v. Grants P w.db v.db) Never (attempt (add_role user name by) w)
  unfolding add_role
  attempt-add_role-Grants w =
      recover-Ends (λ a v. Grants P w.db v.db) (λ e v. v.db ≡ w.db) Never _ _
        (query-Ends (λ a v. Grants P w.db v.db) (λ e v. v.db ≡ w.db) _ w (λ e v h. h)
          (λ a v h.
            subst (λ d. Grants P w.db d) (ground (arith, h))
              (insert_grant-Grants w.now w.db (find (has_role_name name) w.db.roles) refl)))
        (λ e v h. no-Grants P h)
