-- ===== src/Experiments/Rounds.antt =====
-- A run of the evaluator keeps the invariant of the experiments, and the tests as they go.
use w1t.Base.{
  ℕ, Bool, true, false, ◌≡◌, ◌≢◌, refl, sym, subst, ◌∙◌, inl, inr, List, [], ◌∷◌, select, update,
  All, All-map, ==_iff, if◌then◌else◌,
}
use w1t.Base.Keyed.{DistinctBy, All-select, select-DistinctBy}
use w1t.Model.Analytics.{AbTest, AbTestStatus, draft, running, rolled_back, completed}
use w1t.World.{World, Database}
use w1t.Action.Rules.{Ends, Answers, Ends-mono, proceed-Ends, read-Answers}
use w1t.Action.Calm.{Never}
use w1t.Experiments.{is_running, list_running_ab_tests}
use w1t.Experiments.Store
use w1t.Experiments.Evaluator.{evaluate_all, evaluator_job}
use w1t.Experiments.Judgement.{Moves, Cause, evaluate_test-Moves}
use w1t.Experiments.Lifecycle.{IsEnd, Numbered, Sound, Sound-trans, id_of, same-Sound}
use w1t.Experiments.Upkeep.{status_of_running, after, self, Kept}

-- The rows of each test that is left to evaluate run.
abbrev AllRun : List AbTest → List AbTest → Type 0
AllRun ns ts = All (λ (n : AbTest). All (λ (t : AbTest). t.id ≡ n.id → is_running t ≡ true) ts) ns

selected_ne :
    (u : AbTest) (ts ns : List AbTest)
    → All (λ (n : AbTest). n.id ≢ u.id) ns
    → AllRun ns ts
    → AllRun ns (u ∷ ts)
selected_ne u ts [] ne h = tt
selected_ne u ts (n ∷ ns) ne h = (((λ e. absurd (ne.0 (sym e))), h.0), selected_ne u ts ns ne.1 h.1)

select-AllRun : (ts : List AbTest) → DistinctBy id_of ts → AllRun (select is_running ts) ts
select-AllRun [] d = tt
select-AllRun (u ∷ ts) d = chosen (is_running u) refl (select-AllRun ts d.1)
  where
    others : AllRun (select is_running ts) ts → AllRun (select is_running ts) (u ∷ ts)
    others ih =
        selected_ne u ts (select is_running ts)
          (All-select (λ (n : AbTest). n.id ≢ u.id) is_running ts d.0) ih

    chosen :
        (b : Bool)
        → is_running u ≡ b
        → AllRun (select is_running ts) ts
        → AllRun (if b then u ∷ select is_running ts else select is_running ts) (u ∷ ts)
    chosen true run ih = (((λ e. run), All-map _ _ ts (λ t ne e. absurd (ne e)) d.0), others ih)
    chosen false run ih = others ih

update-run :
    (n : AbTest) (s : AbTestStatus) (at m : ℕ) (ts : List AbTest)
    → m ≢ n.id
    → All (λ (t : AbTest). t.id ≡ m → is_running t ≡ true) ts
    → All
        (λ (t : AbTest). t.id ≡ m → is_running t ≡ true)
        (update (Store.has_id n.id) (Store.set_status s at) ts)
update-run n s at m [] ne h = tt
update-run n s at m (t ∷ ts) ne h =
    (case_of (Store.has_id n.id t) refl, update-run n s at m ts ne h.1)
  where
    case_of :
        (b : Bool)
        → Store.has_id n.id t ≡ b
        → (if b then Store.set_status s at t else t).id ≡ m
        → is_running (if b then Store.set_status s at t else t) ≡ true
    case_of true hit e = absurd (ne (sym e ∙ (==_iff t.id n.id).0 hit))
    case_of false hit e = h.0 e

IsEnd-Cause : (t : AbTest) (w : World) (s : AbTestStatus) → Cause t w s → IsEnd s
IsEnd-Cause t w rolled_back c = inl refl
IsEnd-Cause t w completed c = inr refl
IsEnd-Cause t w draft c = absurd c
IsEnd-Cause t w running c = absurd c

moves-Sound :
    (n : AbTest) (w : World) (d' : Database)
    → All (λ (t : AbTest). t.id ≡ n.id → is_running t ≡ true) w.db.ab_tests
    → Moves n w d'
    → Sound w.db d'
moves-Sound n w d' run (inl h) = same-Sound w.db d' h.0 h.1
moves-Sound n w d' run (inr (s, at, cause, e, en)) =
    status_of_running n.id s at w.db d'
      (λ _. All-map _ _ w.db.ab_tests (λ t r hit. r ((==_iff t.id n.id).0 hit)) run)
      (IsEnd-Cause n w s cause) e en

moves-AllRun :
    (n : AbTest) (ns : List AbTest) (w : World) (d' : Database)
    → All (λ (m : AbTest). m.id ≢ n.id) ns
    → AllRun ns w.db.ab_tests
    → Moves n w d'
    → AllRun ns d'.ab_tests
moves-AllRun n [] w d' ne run h = tt
moves-AllRun n (m ∷ ns) w d' ne run (inl h) = subst (λ ts. AllRun (m ∷ ns) ts) (sym h.0) run
moves-AllRun n (m ∷ ns) w d' ne run (inr (s, at, cause, e, en)) = (
  subst (λ ts. All (λ (t : AbTest). t.id ≡ m.id → is_running t ≡ true) ts) (sym e)
      (update-run n s at m.id w.db.ab_tests ne.0 run.0),
  moves-AllRun n ns w d' ne.1 run.1 (inr (s, at, cause, e, en)),
)

evaluate_all-Kept :
    (ns : List AbTest) (w : World)
    → DistinctBy id_of ns
    → AllRun ns w.db.ab_tests
    → Ends (Kept w) Never (evaluate_all ns w)
unfolding evaluate_all
evaluate_all-Kept [] w d run = self refl
evaluate_all-Kept (n ∷ ns) w d run =
    proceed-Ends (λ a v. Moves n w v.db) (Kept w) Never _ _ (evaluate_test-Moves n w)
      λ a v h.
        Ends-mono (Kept v) {R = Kept w} Never _
          (λ b u k. Sound-trans (moves-Sound n w v.db run.0 h) k) (λ e u k. k)
          (evaluate_all-Kept ns v d.1 (moves-AllRun n ns w v.db d.0 run.1 h))

pub evaluator_job-Kept :
    (w : World) → Numbered w.db → Ends (Kept w) (λ e v. v.db ≡ w.db) (evaluator_job w)
unfolding evaluator_job list_running_ab_tests
evaluator_job-Kept w n =
    proceed-Ends (Answers (select is_running w.db.ab_tests) w.db) (Kept w) (λ e v. v.db ≡ w.db) _ _
      (read-Answers (λ now d. select is_running d.ab_tests) w)
      λ ns v a.
        Ends-mono (Kept v) {R = Kept w} Never _ (λ b u k. after a.1 k) (λ e u k. absurd k)
          (evaluate_all-Kept ns v
            (subst (λ l. DistinctBy id_of l) (sym a.0)
              (select-DistinctBy id_of is_running _ n.distinct))
            (subst (λ l. AllRun l v.db.ab_tests) (sym a.0)
              (subst (λ (d : Database). AllRun (select is_running w.db.ab_tests) d.ab_tests)
                (sym a.1) (select-AllRun w.db.ab_tests n.distinct))))
