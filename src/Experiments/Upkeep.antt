-- ===== src/Experiments/Upkeep.antt =====
-- Every method that writes experiments keeps the invariant of their table, and the tests as they go.
use w1t.Base.{
  ℕ, suc, String, Bool, true, false, not, ◌&&◌, ◌≡◌, refl, sym, ap, subst, ◌∙◌, inl, inr, List, [],
  ◌∷◌, ◌++◌, Option, none, some, arith, find, update, exists, All, All-map, Bool-cases, ==_iff,
  if◌then◌else◌,
}
use w1t.Base.Keyed.{DistinctBy}
use w1t.Errors.{sentinel, not_found, validation}
use w1t.Model.Analytics.{AbTest, AbTestStatus}
use w1t.World.{World, Database}
use w1t.Action.Rules.{
  Ends, Same, Answers, Ends-mono, proceed-Ends, recover-Ends, found-Ends, fail_if-Ends, query-Ends,
  read-Answers,
}
use w1t.Experiments.{is_running}
use w1t.Experiments.Store
use w1t.Experiments.Registry.{Issue, validate_experiment}
use w1t.Experiments.Service
use w1t.Experiments.Judgement.{update_ab_test_status-SetsStatus}
use w1t.Experiments.Lifecycle.{
  IsEnd, Later, Numbered, Sound, id_of, same-Sound, update-Sound, append-Sound, set_status-Later,
}

-- A row that is found by its id is the only one with it.
found_only :
    (id : ℕ) (ts : List AbTest) (t : AbTest)
    → DistinctBy id_of ts
    → find (Store.has_id id) ts ≡ some t
    → is_running t ≡ true
    → All (λ u. Store.has_id id u ≡ true → is_running u ≡ true) ts
found_only id [] t d h run = tt
found_only id (u ∷ ts) t d h run = elim (Bool-cases (Store.has_id id u)) [
  | inl hit ↦
      let same : u ≡ t = ground arith in
      (
        (λ e. subst (λ x. is_running x ≡ true) (sym same) run),
        All-map _ _ ts (λ v ne e. absurd (ne ((==_iff v.id id).0 e ∙ sym ((==_iff u.id id).0 hit))))
            d.0,
      )
  | inr miss ↦ ((λ e. absurd (ground arith)), found_only id ts t d.1 (ground arith) run)
]

pub status_of_running :
    (id : ℕ) (s : AbTestStatus) (at : ℕ) (d d' : Database)
    → (Numbered d → All (λ u. Store.has_id id u ≡ true → is_running u ≡ true) d.ab_tests)
    → IsEnd s
    → d'.ab_tests ≡ update (Store.has_id id) (Store.set_status s at) d.ab_tests
    → d'.next_id ≡ d.next_id
    → Sound d d'
status_of_running id s at d d' run end e en =
    update-Sound d d' (Store.has_id id) (Store.set_status s at) (λ t. refl)
      (λ n. All-map _ _ d.ab_tests (λ t r hit. set_status-Later t s at (r hit) end) (run n)) e en

pub after : {d e f : Database} → e ≡ d → Sound e f → Sound d f
after {f} same h = subst (λ x. Sound x f) same h

pub self : {d e : Database} → e ≡ d → Sound d e
self {d} {e} h =
    same-Sound d e (ap (λ (b : Database). b.ab_tests) h) (ap (λ (b : Database). b.next_id) h)

abbrev pub Kept : {A : Type 0} → World → A → World → Type 0
Kept w a v = Sound w.db v.db

module _ (s : AbTestStatus) (end : IsEnd s) (id : ℕ) (w : World) where
  pub end_test-Kept : Ends (Kept w) (Kept w) (Service.end_test s id w)
  unfolding Store.get_ab_test_by_id
  end_test-Kept =
      proceed-Ends (Answers (find (Store.has_id id) w.db.ab_tests) w.db) (Kept w) (Kept w) _ _
        (Ends-mono (Answers (find (Store.has_id id) w.db.ab_tests) w.db) (λ e. Same w.db e) _
          (λ o v h. h) (λ e v h. self h)
          (read-Answers (λ now d. find (Store.has_id id) d.ab_tests) w))
        λ row v a.
          proceed-Ends (λ t u. (find (Store.has_id id) w.db.ab_tests ≡ some t) × (u.db ≡ w.db))
            (Kept w) (Kept w) _ _
            (found-Ends _ (Kept w) row (sentinel not_found "") v (λ h. self a.1)
              (λ t h. (sym a.0 ∙ h, a.1)))
            λ t u f.
              proceed-Ends (λ x y. (is_running t ≡ true) × (y.db ≡ w.db)) (Kept w) (Kept w) _ _
                (fail_if-Ends _ (Kept w) (not (is_running t))
                  (sentinel validation "test is not running") u (λ h. self f.1)
                  (λ h. (ground arith, f.1)))
                λ x y r.
                  Ends-mono _ {R = Kept w} (λ e z. z.db ≡ y.db) {F = Kept w} _
                    (λ b z k. after r.1 (
                      status_of_running id s k.0 y.db z.db
                        (λ n.
                          subst
                            (λ (d : Database).
                              All (λ u. Store.has_id id u ≡ true → is_running u ≡ true) d.ab_tests)
                            (sym r.1)
                            (found_only id w.db.ab_tests t
                              (subst (λ (d : Database). DistinctBy id_of d.ab_tests) r.1 n.distinct)
                              f.0 r.0))
                        end k.1 k.2))
                    (λ e z k. self (k ∙ r.1)) (update_ab_test_status-SetsStatus id s y)

insert-Sound :
    (t : AbTest) (now : ℕ) (d d' : Database) (a : AbTest)
    → Store.insert_test t now d ≡ some (a, d')
    → Sound d d'
insert-Sound t now d d' a h =
    inserted (Store.is_active t.status && exists (Store.is_active_named t.name) d.ab_tests) h
  where
    result : AbTest × Database
    result = (
      Store.new_test t now d,
      record d { next_id = suc d.next_id; ab_tests = d.ab_tests ++ (Store.new_test t now d ∷ []) },
    )

    inserted : (clash : Bool) → (if clash then none else some result) ≡ some (a, d') → Sound d d'
    inserted true e = cc
    inserted false e = append-Sound d d' (Store.new_test t now d) refl (ground arith) (ground arith)

module _ (time_parse : String → String → Option ℕ) where
  no_issue-Same :
      (w : World) (i : Option Issue)
      → Ends (λ a v. v.db ≡ w.db) (λ e v. v.db ≡ w.db) (Service.no_issue i w)
  no_issue-Same w none = refl
  no_issue-Same w (some i) = refl

  pub create-Kept :
      (req : Service.CreateAbTestRequest) (by : ℕ) (w : World)
      → Ends (Kept w) (Kept w) (Service.create time_parse req by w)
  unfolding Service.create Store.create_ab_test
  create-Kept req by w =
      proceed-Ends (λ a v. v.db ≡ w.db) (Kept w) (Kept w) _ _
        (Ends-mono (λ a v. v.db ≡ w.db) (λ e v. v.db ≡ w.db) _ (λ a v h. h) (λ e v h. self h)
          (no_issue-Same w (validate_experiment req.name req.control_variant req.test_variant)))
        λ a v h.
          proceed-Ends (λ b u. u.db ≡ w.db) (Kept w) (Kept w) _ _
            (found-Ends (λ b u. u.db ≡ w.db) (Kept w) _
              (sentinel validation "invalid start_date format") v (λ e. self h) (λ b e. h))
            λ start u k.
              proceed-Ends (λ b x. x.db ≡ w.db) (Kept w) (Kept w) _ _
                (found-Ends (λ b x. x.db ≡ w.db) (Kept w) _
                  (sentinel validation "invalid end_date format") u (λ e. self k) (λ b e. k))
                λ finish x l.
                  recover-Ends (Kept w) (λ e y. y.db ≡ x.db) (Kept w) _ _
                    (query-Ends (Kept w) (λ e y. y.db ≡ x.db) _ x (λ e y same. same)
                      (λ b y put. after l (
                        insert-Sound (Service.test_of time_parse req start finish by x.now) x.now
                          x.db y.db b put)))
                    (λ e y same. self (same ∙ l))

  new_end-Same :
      (s : Option String) (old : ℕ) (w : World)
      → Ends (λ a v. v.db ≡ w.db) (λ e v. v.db ≡ w.db) (Service.new_end time_parse s old w)
  new_end-Same none old w = refl
  new_end-Same (some s) old w =
      found-Ends (λ b u. u.db ≡ w.db) (λ e v. v.db ≡ w.db) _
        (sentinel validation "invalid end_date format") w (λ e. refl) (λ b e. refl)

  pub update_test-Kept :
      (id : ℕ) (req : Service.UpdateAbTestRequest) (w : World)
      → Ends (Kept w) (Kept w) (Service.update_test time_parse id req w)
  unfolding Service.update_test Store.get_ab_test_by_id Store.update_ab_test
  update_test-Kept id req w =
      proceed-Ends (λ a v. v.db ≡ w.db) (Kept w) (Kept w) _ _
        (Ends-mono (Answers (find (Store.has_id id) w.db.ab_tests) w.db) (λ e. Same w.db e) _
          (λ o v h. h.1) (λ e v h. self h)
          (read-Answers (λ now d. find (Store.has_id id) d.ab_tests) w))
        λ row v a.
          proceed-Ends (λ t u. u.db ≡ w.db) (Kept w) (Kept w) _ _
            (found-Ends _ (Kept w) row (sentinel not_found "") v (λ h. self a) (λ t h. a))
            λ t u f.
              proceed-Ends (λ x y. y.db ≡ w.db) (Kept w) (Kept w) _ _
                (fail_if-Ends (λ x y. y.db ≡ w.db) (Kept w)
                  (not (Service.is_draft t.status) && not (is_running t))
                  (sentinel validation "cannot update") u (λ h. self f) (λ h. f))
                λ x y r.
                  proceed-Ends (λ b z. z.db ≡ y.db) (Kept w) (Kept w) _ _
                    (Ends-mono (λ b z. z.db ≡ y.db) (λ e z. z.db ≡ y.db) _ (λ b z h. h)
                      (λ e z h. self (h ∙ r)) (new_end-Same req.end_date t.end_date y))
                    λ finish z k.
                      proceed-Ends (Kept w) (Kept w) (Kept w) _ _
                        (recover-Ends (Kept w) (λ e q. q.db ≡ z.db) (Kept w) _ _
                          (query-Ends (Kept w) (λ e q. q.db ≡ z.db) _ z (λ e q same. same)
                            (λ b q put. after (k ∙ r) (
                              update-Sound z.db q.db (Store.has_id t.id) _ (λ p. refl)
                                (λ n. details_later t finish z.now z.db.ab_tests) (ground arith)
                                (ground arith))))
                          (λ e q same. self (same ∙ k ∙ r)))
                        (λ b q h. h)
    where
      changed : AbTest → ℕ → AbTest
      changed t finish = record t {
        description = Service.or_else req.description t.description;
        traffic_pct = Service.or_else req.traffic_pct t.traffic_pct;
        end_date = finish;
        rollback_threshold_pct =
            Service.or_else req.rollback_threshold_pct t.rollback_threshold_pct;
      }

      details_later :
          (t : AbTest) (finish now : ℕ) (ts : List AbTest)
          → All
              (λ p.
                Store.has_id t.id p ≡ true → Later p (Store.set_details (changed t finish) now p))
              ts
      details_later t finish now [] = tt
      details_later t finish now (p ∷ ts) =
          ((λ h. record { same = refl; way = inl refl }), details_later t finish now ts)
