-- ===== src/Experiments/Lifecycle.antt =====
-- How experiments change over time, and the invariant of their table.
use w1t.Base.{
  ℕ, suc, ◌<◌, String, Bool, true, false, ◌≡◌, ◌≢◌, refl, sym, subst, ◌∙◌, ◌⊎◌, inl, inr, List, [],
  ◌∷◌, ◌++◌, arith, update, All, All-map, All-append, All-update, if◌then◌else◌,
}
use w1t.Base.Keyed.{DistinctBy}
use w1t.Model.Analytics.{AbTest, AbTestStatus, running, rolled_back, completed}
use w1t.World.{Database}
use w1t.Experiments.{is_running}
use w1t.Experiments.Store.{set_status}

-- A status that ends a test.
abbrev pub IsEnd : AbTestStatus → Type 0
IsEnd s = (s ≡ rolled_back) ⊎ (s ≡ completed)

-- A status stays, or a running test ends.
abbrev pub StatusWay : AbTestStatus → AbTestStatus → Type 0
StatusWay s t = (t ≡ s) ⊎ ((s ≡ running) × IsEnd t)

not_running_end : {s : AbTestStatus} → s ≡ running → IsEnd s → ⊥
not_running_end e (inl h) = ground arith
not_running_end e (inr h) = ground arith

StatusWay-trans : {s t u : AbTestStatus} → StatusWay s t → StatusWay t u → StatusWay s u
StatusWay-trans {s} {t} {u} (inl e) h = subst (λ x. StatusWay x u) e h
StatusWay-trans {s} {t} {u} (inr h) (inl e) = subst (λ x. StatusWay s x) (sym e) (inr h)
StatusWay-trans (inr (run, done)) (inr (again, more)) = absurd (not_running_end again done)

-- What no operation changes of a test.
abbrev pub identity : AbTest → ℕ × (String × (String × (String × (ℕ × ℕ))))
identity t = (t.id, (t.name, (t.control_variant, (t.test_variant, (t.start_date, t.created_by)))))

-- `u` is a later state of the test `t`.
pub record Later (t u : AbTest) : Type 0 where
  pub same : identity u ≡ identity t
  pub way : StatusWay t.status u.status

pub Later-refl : (t : AbTest) → Later t t
Later-refl t = record { same = refl; way = inl refl }

Later-trans : {t u v : AbTest} → Later t u → Later u v → Later t v
Later-trans h k = record { same = k.same ∙ h.same; way = StatusWay-trans h.way k.way }

-- Row by row, the second table has later states of the tests of the first, and then new ones.
abbrev pub Grows : List AbTest → List AbTest → Type 0
Grows [] us = Unit
Grows (t ∷ ts) [] = ⊥
Grows (t ∷ ts) (u ∷ us) = Later t u × Grows ts us

pub Grows-refl : (ts : List AbTest) → Grows ts ts
Grows-refl [] = tt
Grows-refl (t ∷ ts) = (Later-refl t, Grows-refl ts)

pub Grows-trans : (ts us vs : List AbTest) → Grows ts us → Grows us vs → Grows ts vs
Grows-trans [] us vs h k = tt
Grows-trans (t ∷ ts) [] vs h k = absurd h
Grows-trans (t ∷ ts) (u ∷ us) [] h k = absurd k
Grows-trans (t ∷ ts) (u ∷ us) (v ∷ vs) h k = (Later-trans h.0 k.0, Grows-trans ts us vs h.1 k.1)

pub append-Grows : (ts us : List AbTest) → Grows ts (ts ++ us)
append-Grows [] us = tt
append-Grows (t ∷ ts) us = (Later-refl t, append-Grows ts us)

pub update-Grows :
    (q : AbTest → Bool) (f : AbTest → AbTest) (ts : List AbTest)
    → All (λ t. q t ≡ true → Later t (f t)) ts
    → Grows ts (update q f ts)
update-Grows q f [] h = tt
update-Grows q f (t ∷ ts) h = (case_of (q t) h.0, update-Grows q f ts h.1)
  where
    case_of : (b : Bool) → (b ≡ true → Later t (f t)) → Later t (if b then f t else t)
    case_of true k = k refl
    case_of false k = Later-refl t

abbrev pub id_of : AbTest → ℕ
id_of t = t.id

-- Ids are below the next one and distinct.
pub record Numbered (d : Database) : Type 0 where
  pub below : All (λ t. t.id < d.next_id) d.ab_tests
  pub distinct : DistinctBy id_of d.ab_tests

-- A step from `d` to `d'` that keeps the invariant and the tests.
abbrev pub Sound : Database → Database → Type 0
Sound d d' = Numbered d → Numbered d' × Grows d.ab_tests d'.ab_tests

pub Sound-trans : {d e f : Database} → Sound d e → Sound e f → Sound d f
Sound-trans {d} {e} {f} h k n =
    let (m, g) = h n in let (l, g') = k m in (l, Grows-trans d.ab_tests e.ab_tests f.ab_tests g g')

module _ (q : AbTest → Bool) (f : AbTest → AbTest) (keeps : (t : AbTest) → (f t).id ≡ t.id) where
  update-ne :
      (n : ℕ) (ts : List AbTest) → All (λ u. u.id ≢ n) ts → All (λ u. u.id ≢ n) (update q f ts)
  update-ne n ts h = All-update (λ u. u.id ≢ n) q f ts (λ u ne e. ne (sym (keeps u) ∙ e)) h

  update-DistinctBy : (ts : List AbTest) → DistinctBy id_of ts → DistinctBy id_of (update q f ts)
  update-DistinctBy [] h = tt
  update-DistinctBy (t ∷ ts) h = (case_of (q t), update-DistinctBy ts h.1)
    where
      case_of : (b : Bool) → All (λ u. u.id ≢ (if b then f t else t).id) (update q f ts)
      case_of true =
          subst (λ n. All (λ (u : AbTest). u.id ≢ n) (update q f ts)) (sym (keeps t))
            (update-ne t.id ts h.0)
      case_of false = update-ne t.id ts h.0

  update-Numbered :
      (n : ℕ) (ts : List AbTest)
      → All (λ t. t.id < n) ts × DistinctBy id_of ts
      → All (λ t. t.id < n) (update q f ts) × DistinctBy id_of (update q f ts)
  update-Numbered n ts h = (
    All-update (λ t. t.id < n) q f ts (λ t lt. subst (λ k. k < n) (sym (keeps t)) lt) h.0,
    update-DistinctBy ts h.1,
  )

-- The invariant reads the experiments and the next id only.
Numbered-of :
    (d : Database) (n : ℕ) (ts : List AbTest)
    → d.ab_tests ≡ ts
    → d.next_id ≡ n
    → All (λ t. t.id < n) ts × DistinctBy id_of ts
    → Numbered d
Numbered-of d n ts e en h = record {
  below =
      subst (λ k. All (λ (t : AbTest). t.id < k) d.ab_tests) (sym en)
        (subst (λ us. All (λ (t : AbTest). t.id < n) us) (sym e) h.0);
  distinct = subst (λ us. DistinctBy id_of us) (sym e) h.1;
}

pub same-Sound : (d d' : Database) → d'.ab_tests ≡ d.ab_tests → d'.next_id ≡ d.next_id → Sound d d'
same-Sound d d' e en n = (
  Numbered-of d' d.next_id d.ab_tests e en (n.below, n.distinct),
  subst (λ us. Grows d.ab_tests us) (sym e) (Grows-refl d.ab_tests),
)

pub update-Sound :
    (d d' : Database) (q : AbTest → Bool) (f : AbTest → AbTest)
    → ((t : AbTest) → (f t).id ≡ t.id)
    → (Numbered d → All (λ t. q t ≡ true → Later t (f t)) d.ab_tests)
    → d'.ab_tests ≡ update q f d.ab_tests
    → d'.next_id ≡ d.next_id
    → Sound d d'
update-Sound d d' q f keeps later e en n = (
  Numbered-of d' d.next_id (update q f d.ab_tests) e en
      (update-Numbered q f keeps d.next_id d.ab_tests (n.below, n.distinct)),
  subst (λ us. Grows d.ab_tests us) (sym e) (update-Grows q f d.ab_tests (later n)),
)

DistinctBy-append :
    (ts : List AbTest) (t : AbTest)
    → All (λ u. u.id < t.id) ts
    → DistinctBy id_of ts
    → DistinctBy id_of (ts ++ (t ∷ []))
DistinctBy-append [] t lt h = (tt, tt)
DistinctBy-append (u ∷ ts) t lt h = (
  All-append (λ v. v.id ≢ u.id) ts (t ∷ []) h.0 ((λ e. absurd (omega (arith, lt.0))), tt),
  DistinctBy-append ts t lt.1 h.1,
)

pub append-Sound :
    (d d' : Database) (t : AbTest)
    → t.id ≡ d.next_id
    → d'.ab_tests ≡ d.ab_tests ++ (t ∷ [])
    → d'.next_id ≡ suc d.next_id
    → Sound d d'
append-Sound d d' t new e en n = (
  Numbered-of d' (suc d.next_id) (d.ab_tests ++ (t ∷ [])) e en (
    All-append (λ u. u.id < suc d.next_id) d.ab_tests (t ∷ [])
        (All-map _ _ d.ab_tests (λ u lt. omega arith) n.below) (omega arith, tt),
    DistinctBy-append d.ab_tests t
        (subst (λ k. All (λ (u : AbTest). u.id < k) d.ab_tests) (sym new) n.below) n.distinct,
  ),
  subst (λ us. Grows d.ab_tests us) (sym e) (append-Grows d.ab_tests (t ∷ [])),
)

pub set_status-Later :
    (t : AbTest) (s : AbTestStatus) (at : ℕ)
    → is_running t ≡ true
    → IsEnd s
    → Later t (set_status s at t)
set_status-Later t s at run end = record { same = refl; way = inr (running_of t.status run, end) }
  where
    running_of : (s : AbTestStatus) → (elim s [ running ↦ true | _ ↦ false ]) ≡ true → s ≡ running
    running_of running h = refl
    running_of _ h = ground arith
