-- ===== src/Experiments/Judgement.antt =====
-- What the evaluator does to one test, and for what cause.
use w1t.Base.{
  ℕ, ◌≤◌, ◌<◌, String, Bool, true, false, ◌≡◌, refl, ap, subst, ◌∙◌, ◌⊎◌, inl, inr, arith, update,
  ltb, if◌then◌else◌,
}
use w1t.Errors.{Error}
use w1t.Model.Analytics.{AbTest, AbTestStatus, rolled_back, completed, AbTestResult}
use w1t.World.{World, Env, Database}
use w1t.Action.{pure, attempt}
use w1t.Action.Rules.{Ends, Ends-mono, proceed-Ends, recover-Ends, query-Ends}
use w1t.Action.Calm.{Never}
use w1t.Action.Steady.{Settled, Settled-refl, Settled-trans, read-Settled}
use w1t.Experiments.Store.{
  has_id, set_status, conversion, tag_of, get_ab_test_conversion, save_ab_test_result,
  update_ab_test_status,
}
use w1t.Base.Float.{exceeds, float64}
use w1t.Experiments.Evaluator.{
  rate, relative_drop, too_few, drops_by, judge, result_of, evaluate_running, evaluate_test,
}

-- The views and orders of a variant of the test, by the events of `w`.
abbrev pub measured : AbTest → World → String → ℕ × ℕ
measured t w variant = conversion w.env.sql_like (tag_of t.name variant) w.db.events

-- 100 views of each variant, a control that converts, and a relative drop above the threshold.
abbrev pub IsWorse : ℕ → ℕ × ℕ → ℕ × ℕ → Type 0
IsWorse threshold control test =
    (100 ≤ control.0)
    × (100 ≤ test.0)
    × (exceeds (rate control) (0, 1) ≡ true)
    × (exceeds (relative_drop (rate control) (rate test)) (float64 threshold) ≡ true)

-- Why a test is given a status.
abbrev pub Cause : AbTest → World → AbTestStatus → Type 0
Cause t w completed = t.end_date < w.now
Cause t w rolled_back =
    (w.now ≤ t.end_date)
    × IsWorse t.rollback_threshold_pct (measured t w t.control_variant)
        (measured t w t.test_variant)
Cause t w _ = ⊥

-- The experiments and the next id are those of `d`.
abbrev SameTests : Database → Database → Type 0
SameTests d d' = (d'.ab_tests ≡ d.ab_tests) × (d'.next_id ≡ d.next_id)

abbrev pub SetsStatus : ℕ → AbTestStatus → Database → Database → Type 0
SetsStatus id s d d' =
    (at : ℕ) × (d'.ab_tests ≡ update (has_id id) (set_status s at) d.ab_tests)
    × (d'.next_id ≡ d.next_id)

-- No experiment changes, or that one gets a status for its cause.
abbrev pub Moves : AbTest → World → Database → Type 0
Moves t w d' =
    ((d'.ab_tests ≡ w.db.ab_tests) × (d'.next_id ≡ w.db.next_id))
    ⊎ ((s : AbTestStatus) × (at : ℕ) × Cause t w s
        × (d'.ab_tests ≡ update (has_id t.id) (set_status s at) w.db.ab_tests)
        × (d'.next_id ≡ w.db.next_id))

same_of : {d d' : Database} → d' ≡ d → SameTests d d'
same_of e = (ap (λ (b : Database). b.ab_tests) e, ap (λ (b : Database). b.next_id) e)

pub update_ab_test_status-SetsStatus :
    (id : ℕ) (s : AbTestStatus) (w : World)
    → Ends (λ a v. SetsStatus id s w.db v.db) (λ e v. v.db ≡ w.db) (update_ab_test_status id s w)
unfolding update_ab_test_status
update_ab_test_status-SetsStatus id s w =
    query-Ends (λ a v. SetsStatus id s w.db v.db) (λ e v. v.db ≡ w.db) _ w (λ e v h. h)
      λ a v h. (w.now, ground arith, ground arith)

attempt_status :
    (id : ℕ) (s : AbTestStatus) (w : World)
    → Ends
        (λ a v. SameTests w.db v.db ⊎ SetsStatus id s w.db v.db)
        Never
        (attempt (update_ab_test_status id s) w)
attempt_status id s w =
    recover-Ends (λ a v. SameTests w.db v.db ⊎ SetsStatus id s w.db v.db) (λ e v. v.db ≡ w.db) Never
      _ _
      (Ends-mono (λ a v. SetsStatus id s w.db v.db)
        {R = λ a v. SameTests w.db v.db ⊎ SetsStatus id s w.db v.db} (λ e v. v.db ≡ w.db)
        {F = λ e v. v.db ≡ w.db} _ (λ a v h. inr h) (λ e v h. h)
        (update_ab_test_status-SetsStatus id s w))
      (λ e v h. inl (same_of h))

attempt_save :
    (r : AbTestResult) (w : World)
    → Ends (λ a v. SameTests w.db v.db) Never (attempt (save_ab_test_result r) w)
unfolding save_ab_test_result
attempt_save r w =
    recover-Ends (λ a v. SameTests w.db v.db) (λ e v. v.db ≡ w.db) Never _ _
      (query-Ends (λ a v. SameTests w.db v.db) (λ e v. v.db ≡ w.db) _ w (λ e v h. h)
        (λ a v h. (ground arith, ground arith)))
      (λ e v h. same_of h)

moved :
    (t : AbTest) (w : World) (s : AbTestStatus) (d d' : Database)
    → Cause t w s
    → SameTests w.db d
    → SameTests d d' ⊎ SetsStatus t.id s d d'
    → Moves t w d'
moved t w s d d' cause same (inl h) = inl (h.0 ∙ same.0, h.1 ∙ same.1)
moved t w s d d' cause same (inr (at, e, n)) =
    inr (s, at, cause, e ∙ ap (λ ts. update (has_id t.id) (set_status s at) ts) same.0, n ∙ same.1)

drops_by-IsWorse :
    (threshold : ℕ) (control test : ℕ × ℕ)
    → too_few control test ≡ false
    → drops_by threshold control test ≡ true
    → IsWorse threshold control test
drops_by-IsWorse threshold control test few drop =
    (ground (arith, few), ground (arith, few), ground (arith, drop), ground (arith, drop))

module _ (t : AbTest) (w : World) (open_still : w.now ≤ t.end_date) where
  judge-Moves :
      (control test : ℕ × ℕ) (v : World)
      → control ≡ measured t w t.control_variant
      → test ≡ measured t w t.test_variant
      → SameTests w.db v.db
      → Ends (λ a u. Moves t w u.db) Never (judge t control test v)
  judge-Moves control test v ec et same = judged _ _ refl refl
    where
      judged :
          (few drop : Bool)
          → too_few control test ≡ few
          → drops_by t.rollback_threshold_pct control test ≡ drop
          → Ends
              (λ a u. Moves t w u.db)
              Never
              ((if few
                  then pure tt
                  else if drop
                  then attempt (update_ab_test_status t.id rolled_back)
                  else pure tt)
                v)
      judged true drop f g = inl same
      judged false false f g = inl same
      judged false true f g =
          Ends-mono (λ a u. SameTests v.db u.db ⊎ SetsStatus t.id rolled_back v.db u.db) Never _
            (λ a u h.
              moved t w rolled_back v.db u.db
                (open_still, drops_by-IsWorse t.rollback_threshold_pct _ _ few_enough deep_enough)
                same h)
            (λ e u h. h) (attempt_status t.id rolled_back v)
        where
          few_enough :
              too_few (measured t w t.control_variant) (measured t w t.test_variant) ≡ false
          few_enough =
              subst (λ c. too_few c (measured t w t.test_variant) ≡ false) ec
                (subst (λ x. too_few control x ≡ false) et f)

          deep_enough :
              drops_by t.rollback_threshold_pct
                (measured t w t.control_variant)
                (measured t w t.test_variant)
              ≡ true
          deep_enough =
              subst (λ c. drops_by t.rollback_threshold_pct c (measured t w t.test_variant) ≡ true)
                ec (subst (λ x. drops_by t.rollback_threshold_pct control x ≡ true) et g)

measured-Settled :
    (t : AbTest) (variant : String) {w v : World}
    → Settled w v
    → measured t v variant ≡ measured t w variant
measured-Settled t variant {w} {v} h =
    ap (λ (e : Env). conversion e.sql_like (tag_of t.name variant) v.db.events) h.env
    ∙ ap (λ (d : Database). conversion w.env.sql_like (tag_of t.name variant) d.events) h.db

conversion-Settled :
    (t : AbTest) (variant : String) (w v : World)
    → Settled w v
    → Ends
        (λ c u. (c ≡ measured t w variant) × Settled w u)
        (λ e u. Settled w u)
        (get_ab_test_conversion t.name variant v)
unfolding get_ab_test_conversion
conversion-Settled t variant w v h =
    Ends-mono _ {R = λ c u. (c ≡ measured t w variant) × Settled w u} (λ e u. Settled v u)
      {F = λ e u. Settled w u} _
      (λ c u k. (k.0 ∙ measured-Settled t variant h, Settled-trans h k.1))
      (λ e u k. Settled-trans h k)
      (read-Settled (λ now d. conversion v.env.sql_like (tag_of t.name variant) d.events) v)

evaluate_running-Moves :
    (t : AbTest) (w : World)
    → w.now ≤ t.end_date
    → Ends (λ a u. Moves t w u.db) Never (evaluate_running t w)
evaluate_running-Moves t w still =
    recover-Ends Q E Never _ _
      (proceed-Ends (λ c u. (c ≡ measured t w t.control_variant) × Settled w u) Q E _ _
        (Ends-mono (λ c u. (c ≡ measured t w t.control_variant) × Settled w u) (λ e u. Settled w u)
          _ (λ c u h. h) (λ e u h. same_of h.db)
          (conversion-Settled t t.control_variant w w (Settled-refl w)))
        λ control u h.
          proceed-Ends (λ c v. (c ≡ measured t w t.test_variant) × Settled w v) Q E _ _
            (Ends-mono (λ c v. (c ≡ measured t w t.test_variant) × Settled w v) (λ e v. Settled w v)
              _ (λ c v k. k) (λ e v k. same_of k.db) (conversion-Settled t t.test_variant w u h.1))
            λ test v k.
              proceed-Ends (λ a x. SameTests w.db x.db) Q E _ _
                (saved (result_of t t.control_variant control) v (same_of k.1.db))
                λ a x same.
                  proceed-Ends (λ b y. SameTests w.db y.db) Q E _ _
                    (saved (result_of t t.test_variant test) x same)
                    λ b y same'.
                      Ends-mono Q Never _ (λ c z m. m) (λ e z m. absurd m)
                        (judge-Moves t w still control test y h.0 k.0 same'))
      (λ e v h. inl h)
  where
    Q : Unit {0} → World → Type 0
    Q a u = Moves t w u.db

    E : Error → World → Type 0
    E e u = SameTests w.db u.db

    saved :
        (r : AbTestResult) (v : World)
        → SameTests w.db v.db
        → Ends (λ a x. SameTests w.db x.db) E (attempt (save_ab_test_result r) v)
    saved r v same =
        Ends-mono (λ a x. SameTests v.db x.db) Never _ (λ a x h. (h.0 ∙ same.0, h.1 ∙ same.1))
          (λ e x h. absurd h) (attempt_save r v)

-- Whatever calls fail, the evaluation of a test does not fail, and changes no other experiment: the test
-- is completed only after its end date, and rolled back only before it, with 100 views of each variant, a
-- control that converts, and a relative drop of the rates, in 64-bit floats, above the threshold, by
-- all the events recorded so far.
pub evaluate_test-Moves :
    (t : AbTest) (w : World) → Ends (λ a v. Moves t w v.db) Never (evaluate_test t w)
unfolding evaluate_test
evaluate_test-Moves t w = ended _ refl
  where
    ended :
        (over : Bool)
        → ltb t.end_date w.now ≡ over
        → Ends
            (λ a v. Moves t w v.db)
            Never
            ((if over then attempt (update_ab_test_status t.id completed) else evaluate_running t)
              w)
    ended true h =
        Ends-mono (λ a v. SameTests w.db v.db ⊎ SetsStatus t.id completed w.db v.db) Never _
          (λ a v k. moved t w completed w.db v.db (ground arith) (refl, refl) k) (λ e v k. k)
          (attempt_status t.id completed w)
    ended false h = evaluate_running-Moves t w (ground arith)
