-- ===== src/Handlers/Opening.antt =====
-- What `Bootstrap` does to the tables, by what it answers.
use w1t.Base.{
  ℕ, Bool, true, false, ◌≡◌, refl, sym, ap, subst, ◌∙◌, inl, inr, List, [], ◌∷◌, ◌++◌, Option, none,
  some, find, exists, arith,
}
use w1t.Errors.{Error, Response}
use w1t.Model.User.{User}
use w1t.World.{World, Database}
use w1t.Action.Rules.{Ends, Ends-mono, proceed-Ends, recover-Ends, query-Ends}
use w1t.Action.Calm.{Never}
use w1t.Action.Steady.{Settled, read-Settled}
use w1t.Auth.Store.{admin_exists}
use w1t.Users.Store
use w1t.Users.Store.{
  has_role_name, is_grant, new_grant, insert_grant, new_row, insert_user, add_role,
}
use w1t.Users.Service.{new_user}
use w1t.Users.Entry.{hash_password-found}
use w1t.Handlers.{bind_and_validate}
use w1t.Handlers.Setup.{
  BootstrapAdminRequest, internal, create_admin, unless_complete, open_setup, bootstrap,
}
use w1t.Handlers.Installing.{
  is_admin, has_admin, IsReady, Installed, Answered, Outcome, grant-users, Installed-users, Bare,
  insert_user-Bare, granted,
}

module _ (req : BootstrapAdminRequest) where
  create_admin-Answered :
      (w : World)
      → IsReady w.db
      → Ends
          (λ r v. Answered req w.env w.db r v.db)
          (λ e v. Answered req w.env w.db internal v.db)
          (create_admin req w)
  unfolding create_admin Store.create add_role
  create_admin-Answered w ready =
      proceed-Ends (λ h v. (w.env.hash_password req.password ≡ some h) × (v ≡ w)) Q E _ _
        (Ends-mono (λ h v. (w.env.hash_password req.password ≡ some h) × (v ≡ w))
          {R = λ h v. (w.env.hash_password req.password ≡ some h) × (v ≡ w)} (λ e v. v ≡ w) {F = E}
          _ (λ h v k. k) (λ e v k. inl (refl, inl (ap (λ (x : World). x.db) k)))
          (hash_password-found req.password w))
        λ hash v k.
          proceed-Ends (λ row x. Bare req w.env w.db row x.db) Q E _ _
            (query-Ends (λ row x. Bare req w.env w.db row x.db) E _ v
              (λ e x same. inl (refl, inl (same ∙ ap (λ (z : World). z.db) k.1)))
              (λ row x put. insert_user-Bare req w.env hash row v.now w.db x.db k.0 (
                subst
                  (λ (z : World).
                    insert_user (new_user req.username hash req.display_name none) v.now z.db
                    ≡ some (row, x.db))
                  k.1 put)))
            λ row x b.
              proceed-Ends
                (λ a y.
                  ((row : User) × Installed w.env req row w.db y.db) × (has_admin y.db ≡ true))
                Q E _ _
                (query-Ends _ E _ x
                  (λ e y same. inl (
                    refl,
                    inr (
                      row,
                      Installed-users req w.env (ap (λ (d : Database). d.users) same) b.0,
                      ap (λ (d : Database). d.user_roles) same ∙ b.1,
                    ),
                  ))
                  (λ a y put. (
                    (
                      row,
                      Installed-users req w.env
                          (ap (λ (d : Database). d.users)
                              (sym (granted_by row x.now x.db a y.db put))
                            ∙ grant-users row.id row.id x.now
                                (find (has_role_name "administrator") x.db.roles) x.db)
                          b.0,
                    ),
                    subst (λ d. has_admin d ≡ true) (granted_by row x.now x.db a y.db put)
                        (granted req w.env row x.now w.db x.db ready b),
                  )))
                λ a y done. inr (refl, done.0, done.1)
    where
      Q : Response → World → Type 0
      Q r v = Answered req w.env w.db r v.db

      E : Error → World → Type 0
      E e v = Answered req w.env w.db internal v.db

      granted_by :
          (row : User) (now : ℕ) (d : Database) (a : Unit {0}) (d' : Database)
          → ◌≡◌ {A = Option (Unit {0} × Database)}
              (some (
                tt,
                insert_grant row.id row.id now (find (has_role_name "administrator") d.roles) d,
              ))
              (some (a, d'))
          → insert_grant row.id row.id now (find (has_role_name "administrator") d.roles) d ≡ d'
      granted_by row now d a d' h = ground (arith, h)

  module _ (bound valid : Bool) where
    open_setup-Answered :
        (w : World)
        → IsReady w.db
        → Ends
            (λ rs v.
              (r : Response) × (rs ≡ bind_and_validate bound valid ++ (r ∷ []))
              × Answered req w.env w.db r v.db)
            Never
            (open_setup bound valid req w)
    unfolding open_setup
    open_setup-Answered w ready =
        proceed-Ends (λ r v. Answered req w.env w.db r v.db) _ Never _ _
          (recover-Ends (λ r v. Answered req w.env w.db r v.db)
            (λ e v. Answered req w.env w.db internal v.db) Never _ _ (create_admin-Answered w ready)
            (λ e v a. a))
          λ r v a. (r, refl, a)

    -- Whatever calls fail, where the role is there and roles are granted to users with an id below the
    -- next one: Bootstrap cannot ask for an administrator, and writes 500 and changes no table; or
    -- there is one, and it writes 409 and changes no table; or there is none. Then, for a valid
    -- request or after the response that refuses an invalid one, it adds a user of that name, which
    -- was free, with an administrator there then, and writes 201; or it writes 500, and has changed no
    -- table or has added the user without a role.
    pub bootstrap-Outcome :
        (w : World)
        → IsReady w.db
        → Ends
            (λ rs v. Outcome req bound valid w.env w.db rs v.db)
            Never
            (bootstrap bound valid req w)
    unfolding bootstrap admin_exists
    bootstrap-Outcome w ready =
        recover-Ends Q E Never _ _
          (proceed-Ends (λ b v. (b ≡ has_admin w.db) × Settled w v) Q E _ _
            (Ends-mono (λ b v. (b ≡ has_admin w.db) × Settled w v) (λ e v. Settled w v) _
              (λ b v h. h) (λ e v h. h.db) (read-Settled (λ now d. exists is_admin d.user_roles) w))
            λ b v h. by_case b v h.0 h.1)
          (λ e v same. inl (same, refl))
      where
        Q : List Response → World → Type 0
        Q rs v = Outcome req bound valid w.env w.db rs v.db

        E : Error → World → Type 0
        E e v = v.db ≡ w.db

        by_case :
            (b : Bool) (v : World)
            → b ≡ has_admin w.db
            → Settled w v
            → Ends Q E (unless_complete b (open_setup bound valid req) v)
        by_case true v h settled = inr (inl (settled.db, refl, sym h))
        by_case false v h settled =
            Ends-mono
              (λ rs u.
                (r : Response) × (rs ≡ bind_and_validate bound valid ++ (r ∷ []))
                × Answered req v.env v.db r u.db)
              {R = Q} Never {F = E} _
              (λ rs u a. inr (
                inr (
                  sym h,
                  (
                    a.0,
                    a.1,
                    subst (λ env. Answered req env w.db a.0 u.db) settled.env
                        (subst (λ d. Answered req v.env d a.0 u.db) settled.db a.2),
                  ),
                )))
              (λ e u never. absurd never)
              (open_setup-Answered v (subst (λ d. IsReady d) (sym settled.db) ready))
