-- ===== src/Anomalies/Reference.antt =====
-- Whom a run of the detector should flag: an account by users, without the loops.
use w1t.Base.{
  ℕ, String, Bool, true, false, not, ◌&&◌, ◌||◌, ◌≡◌, refl, sym, subst, ◌∙◌, List, [], ◌∷◌, Option,
  none, some, arith, ltb, ◌==◌, ==_iff, count, exists, select, count-append, inl, inr, Bool-cases,
  if◌then◌else◌,
}
use w1t.Model.Analytics.{
  AnomalyType, excessive_cancellations, repeated_checkout_failures, AnalyticsEvent, AnomalyEvent,
}
use w1t.World.{Database}
use w1t.Orders.Store.{cancelled_in_period}
use w1t.Anomalies.Store.{checkout_failures, distinct_users, with_user, is_recent, is_by}
use w1t.Anomalies.Detection.{Brief}
use w1t.Anomalies.Rounds.{deserved, all_deserved}

abbrev pub same_kind : AnomalyType → AnomalyType → Bool
same_kind excessive_cancellations excessive_cancellations = true
same_kind repeated_checkout_failures repeated_checkout_failures = true
same_kind _ _ = false

-- The anomaly is of the kind, and about the user.
abbrev pub concerns : AnomalyType → ℕ → AnomalyEvent → Bool
concerns kind user a = same_kind a.anomaly_type kind && (a.user_id == user)

abbrev pub occurred : String → ℕ → ℕ → ℕ → Database → Bool
occurred event hours user now d = exists (λ e. is_by user e && is_recent event hours now e) d.events

-- How many anomalies of the kind a user should get: one or none.
abbrev pub due : AnomalyType → ℕ → ℕ → Database → ℕ
due excessive_cancellations user now d =
    if occurred "order_cancelled" 24 user now d && ltb 6 (cancelled_in_period user 24 now d)
    then 1
    else 0
due repeated_checkout_failures user now d =
    if occurred "checkout_failed" 1 user now d && ltb 10 (checkout_failures user 1 now d)
    then 1
    else 0

module _ (user : ℕ) where
  abbrev pub is_user : ℕ → Bool
  is_user v = v == user

  select_other :
      (u : ℕ) (us : List ℕ)
      → (u == user) ≡ false
      → count is_user (select (λ v. not (v == u)) us) ≡ count is_user us
  select_other u [] h = refl
  select_other u (v ∷ us) h = ground (arith, h, select_other u us h)

  select_same :
      (u : ℕ) (us : List ℕ) → (u == user) ≡ true → count is_user (select (λ v. not (v == u)) us) ≡ 0
  select_same u [] h = refl
  select_same u (v ∷ us) h = ground (arith, h, select_same u us h)

  -- The users are distinct, and those of the events.
  pub count-distinct_users :
      (p : AnalyticsEvent → Bool) (es : List AnalyticsEvent)
      → count is_user (distinct_users p es)
        ≡ (if exists (λ e. is_by user e && p e) es then 1 else 0)
  count-distinct_users p [] = refl
  count-distinct_users p (e ∷ es) = by_case (p e) e.user_id (count-distinct_users p es)
    where
      by_case :
          (b : Bool) (o : Option ℕ)
          → count is_user (distinct_users p es)
            ≡ (if exists (λ e. is_by user e && p e) es then 1 else 0)
          → count is_user (if b then with_user o (distinct_users p es) else distinct_users p es) ≡ (
              if (elim o [ none ↦ false | some u ↦ u == user ]) && b
                || exists (λ e. is_by user e && p e) es
              then 1
              else 0)
      by_case false none ih = ih
      by_case false (some u) ih = ground (arith, ih)
      by_case true none ih = ih
      by_case true (some u) ih = elim (Bool-cases (u == user)) [
        | inl h ↦ ground (arith, h, select_same u (distinct_users p es) h)
        | inr h ↦ ground (arith, h, ih, select_other u (distinct_users p es) h)
      ]

  abbrev pub about : AnomalyType → Brief → Bool
  about kind (u, (k, detail)) = same_kind k kind && (u == user)

  module _ (kind : AnomalyType) (limit : ℕ) (f : ℕ → ℕ) where
    count-deserved :
        (u : ℕ)
        → same_kind kind kind ≡ true
        → count (about kind) (deserved kind limit u (f u))
          ≡ (if (u == user) && ltb limit (f user) then 1 else 0)
    count-deserved u h = elim (Bool-cases (u == user)) [
      | inl same ↦
          subst
            (λ v.
              count (about kind) (deserved kind limit v (f v))
              ≡ (if (v == user) && ltb limit (f user) then 1 else 0))
            (sym ((==_iff u user).0 same)) (ground (arith, h))
      | inr other ↦ ground (arith, h, other)
    ]

    count-all_deserved :
        (us : List ℕ)
        → same_kind kind kind ≡ true
        → count (about kind) (all_deserved kind limit f us)
          ≡ (if ltb limit (f user) then count is_user us else 0)
    count-all_deserved [] h = ground arith
    count-all_deserved (u ∷ us) h =
        count-append (about kind) (deserved kind limit u (f u)) (all_deserved kind limit f us)
        ∙ ground (arith, count-deserved u h, count-all_deserved us h)

    pub none_of :
        (other : AnomalyType) (us : List ℕ)
        → same_kind kind other ≡ false
        → count (about other) (all_deserved kind limit f us) ≡ 0
    none_of other [] h = refl
    none_of other (u ∷ us) h =
        count-append (about other) (deserved kind limit u (f u)) (all_deserved kind limit f us)
        ∙ ground (arith, h, none_of other us h)

    pub count-due :
        (us : List ℕ) (there : Bool)
        → same_kind kind kind ≡ true
        → count is_user us ≡ (if there then 1 else 0)
        → count (about kind) (all_deserved kind limit f us)
          ≡ (if there && ltb limit (f user) then 1 else 0)
    count-due us there h e = count-all_deserved us h ∙ ground (arith, e)
