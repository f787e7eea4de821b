-- ===== src/Users/Enrolment.antt =====
-- What the creation of a user does to the tables, on every branch.
use w1t.Base.{ℕ, ◌≡◌, refl, sym, ap, subst, ◌∙◌, inl, inr, List, Option, some, find}
use w1t.Errors.{Error, sentinel, conflict}
use w1t.Model.User.{User}
use w1t.World.{World}
use w1t.Action.{attempt}
use w1t.Action.Rules.{Ends, Ends-mono, proceed-Ends, recover-Ends, fail_if-Ends, query-Ends}
use w1t.Action.Calm.{Never}
use w1t.Action.Steady.{Settled, read-Settled}
use w1t.Auth.Store.{has_username, get_by_username}
use w1t.Users.Store
use w1t.Users.Store.{new_row, insert_user}
use w1t.Users.Service.{CreateUserRequest, is_some, with_address, new_user, enrol, create}
use w1t.Users.Granting.{Grants, Grants-trans, attempt-add_role-Grants}
use w1t.Users.Entry.{
  Fits, IsPlain, Enrolled, hash_password-found, with_address-Fits, Inserted, insert_user-Inserted,
  enrolled,
}

module _ (iv : Option (List ℕ)) (req : CreateUserRequest) (by : ℕ) where
  enrol-Enrolled :
      (w : World)
      → Ends
          (λ row v. Enrolled w.env iv req by row w.db v.db)
          (λ e v. v.db ≡ w.db)
          (enrol iv req by w)
  unfolding enrol Store.create
  enrol-Enrolled w =
      proceed-Ends (λ h v. (w.env.hash_password req.password ≡ some h) × (v ≡ w)) Q E _ _
        (Ends-mono (λ h v. (w.env.hash_password req.password ≡ some h) × (v ≡ w))
          {R = λ h v. (w.env.hash_password req.password ≡ some h) × (v ≡ w)} (λ e v. v ≡ w) {F = E}
          _ (λ h v k. k) (λ e v k. ap (λ (x : World). x.db) k) (hash_password-found req.password w))
        λ hash v k.
          proceed-Ends (λ u x. Fits w.env iv req by u × (x ≡ w)) Q E _ _
            (Ends-mono (λ u x. Fits w.env iv req by u × (x ≡ w))
              {R = λ u x. Fits w.env iv req by u × (x ≡ w)} (λ e x. x ≡ w) {F = E} _ (λ u x f. f)
              (λ e x f. ap (λ (y : World). y.db) f)
              (subst
                (λ (x : World).
                  Ends (λ u x. Fits w.env iv req by u × (x ≡ w)) (λ e x. x ≡ w)
                    (with_address iv req.email
                      (new_user req.username hash req.display_name (some by)) x))
                (sym k.1) (with_address-Fits iv req by req.email hash w refl k.0)))
            λ u x f.
              proceed-Ends (λ row y. Inserted iv req by w.env w.db row y.db) Q E _ _
                (recover-Ends (λ row y. Inserted iv req by w.env w.db row y.db) E E _ _
                  (query-Ends (λ row y. Inserted iv req by w.env w.db row y.db) E (insert_user u) x
                    (λ e y same. same ∙ ap (λ (z : World). z.db) f.1)
                    (λ row y put.
                      insert_user-Inserted iv req by w.env u row x.now w.db y.db f.0 (
                        subst (λ (z : World). insert_user u x.now z.db ≡ some (row, y.db)) f.1
                          put)))
                  (λ e y same. same))
                λ row y put.
                  proceed-Ends (λ a z. Grants (IsPlain row.id by) y.db z.db) Q E _ _ (granted row y)
                    λ a z g.
                      proceed-Ends (λ b t. Grants (IsPlain row.id by) y.db t.db) Q E _ _
                        (Ends-mono (λ b t. Grants (IsPlain row.id by) z.db t.db) Never _
                          (λ b t g'. Grants-trans _ g g') (λ e t never. absurd never)
                          (attempt-add_role-Grants row.id by "seller" (IsPlain row.id by)
                            (λ r is. record { holder = is.0; giver = is.1; role = inr is.2 }) z))
                        λ b t g'. enrolled iv req by w.env row w.db y.db t.db put g'
    where
      Q : User → World → Type 0
      Q row v = Enrolled w.env iv req by row w.db v.db

      E : Error → World → Type 0
      E e v = v.db ≡ w.db

      granted :
          (row : User) (y : World)
          → Ends
              (λ a z. Grants (IsPlain row.id by) y.db z.db)
              E
              (attempt (Store.add_role row.id "buyer" by) y)
      granted row y =
          Ends-mono (λ a z. Grants (IsPlain row.id by) y.db z.db) Never _ (λ a z g. g)
            (λ e z never. absurd never)
            (attempt-add_role-Grants row.id by "buyer" (IsPlain row.id by)
              (λ r is. record { holder = is.0; giver = is.1; role = inl is.2 }) y)

  -- Whatever calls fail: on success one user has been added, with what the request asks for, under a name
  -- that was free, unlocked; the user has no role but those of a buyer and a seller, granted by the
  -- creator. On an error no table has changed.
  pub create-Enrolled :
      (w : World)
      → Ends
          (λ row v. Enrolled w.env iv req by row w.db v.db)
          (λ e v. v.db ≡ w.db)
          (create iv req by w)
  unfolding create get_by_username
  create-Enrolled w =
      proceed-Ends (λ o v. Settled w v) Q E _ _
        (recover-Ends (λ o v. Settled w v) (λ e v. Settled w v) E _ _
          (Ends-mono (λ o v. (o ≡ find (has_username req.username) w.db.users) × Settled w v)
            (λ e v. Settled w v) _ (λ o v h. h.1) (λ e v h. h)
            (read-Settled (λ now d. find (has_username req.username) d.users) w))
          (λ e v h. h.db))
        λ o v h.
          proceed-Ends (λ a u. Settled w u) Q E _ _
            (fail_if-Ends _ E (is_some o) (sentinel conflict "") v (λ taken. h.db) (λ free. h))
            λ a u k.
              Ends-mono (λ row t. Enrolled u.env iv req by row u.db t.db) {R = Q}
                (λ e t. t.db ≡ u.db) {F = E} _
                (λ row t done.
                  subst (λ env. Enrolled env iv req by row w.db t.db) k.env
                    (subst (λ d. Enrolled u.env iv req by row d t.db) k.db done))
                (λ e t same. same ∙ k.db) (enrol-Enrolled u)
    where
      Q : User → World → Type 0
      Q row v = Enrolled w.env iv req by row w.db v.db

      E : Error → World → Type 0
      E e v = v.db ≡ w.db
