-- ===== src/Anomalies/Rounds.antt =====
-- What the loops of the detector add, user by user.
use w1t.Base.{
  ℕ, Bool, some, true, false, ◌≡◌, refl, sym, ap, subst, ◌∙◌, List, [], ◌∷◌, ◌++◌, arith, ltb,
  count, if◌then◌else◌,
}
use w1t.Model.Analytics.{AnomalyType}
use w1t.World.{World, Database}
use w1t.Errors.{Error}
use w1t.Action.{pure, query}
use w1t.Action.Rules.{Ends, Ends-mono, proceed-Ends, recover-Ends}
use w1t.Action.Calm.{Never}
use w1t.Anomalies.Store.{create_anomaly_event, add_anomaly}
use w1t.Anomalies.{new_anomaly, flag, check_user, check_users}
use w1t.Anomalies.Detection.{
  Brief, Logged, Idle, Failed, total-Ends, read-Idle, Idle-Logged, Failed-Logged, Logged-trans,
}

-- The anomaly that a user with that count deserves, if any.
abbrev pub deserved : AnomalyType → ℕ → ℕ → ℕ → List Brief
deserved kind limit user n = if ltb limit n then (user, (kind, (n, limit))) ∷ [] else []

abbrev pub all_deserved : AnomalyType → ℕ → (ℕ → ℕ) → List ℕ → List Brief
all_deserved kind limit count [] = []
all_deserved kind limit count (u ∷ us) =
    deserved kind limit u (count u) ++ all_deserved kind limit count us

-- After a call that changed no table.
after-Idle : {bs : List Brief} {u v w : World} → Idle u v → Logged bs v w → Logged bs u w
after-Idle {bs} h k = Logged-trans [] bs (Idle-Logged h) k

module _ (kind : AnomalyType) (limit : ℕ) where
  added_one :
      (user n : ℕ) (w v : World)
      → add_anomaly (new_anomaly user kind n limit) w.now w.db ≡ v.db
      → v.now ≡ w.now
      → (w.faults ≡ [] → v.faults ≡ [])
      → Logged ((user, (kind, (n, limit))) ∷ []) w v
  added_one user n w v e now calm = record {
    now = now;
    orders = ap (λ (d : Database). d.orders) (sym e);
    events = ap (λ (d : Database). d.events) (sym e);
    new = record (new_anomaly user kind n limit) { id = w.db.next_id; created_at = w.now } ∷ [];
    added = ap (λ (d : Database). d.anomalies) (sym e);
    within = λ p. omega arith;
    full = λ c. (calm c, refl);
  }

  flag-Logged :
      (user n : ℕ) (w : World)
      → Ends
          (λ a v. Logged (deserved kind limit user n) w v)
          (λ e v. Failed w v)
          (flag kind limit user n w)
  unfolding create_anomaly_event
  flag-Logged user n w = by_case (ltb limit n)
    where
      by_case :
          (b : Bool)
          → Ends
              (λ a v. Logged (if b then (user, (kind, (n, limit))) ∷ [] else []) w v)
              (λ e v. Failed w v)
              ((if b then create_anomaly_event (new_anomaly user kind n limit) else pure tt) w)
      by_case true =
          Ends-mono _ {R = λ a v. Logged ((user, (kind, (n, limit))) ∷ []) w v} (λ e v. Failed w v)
            {F = λ e v. Failed w v} _
            (λ a v k. added_one user n w v (ap (λ (p : Unit {0} × Database). p.1) k.0) k.1 k.2)
            (λ e v k. k)
            (total-Ends (λ now d. (tt, add_anomaly (new_anomaly user kind n limit) now d)) w)
      by_case false = Idle-Logged (record { now = refl; db = refl; calm = λ c. c })

  module _ (f : ℕ → ℕ → Database → ℕ) where
    check_user-Logged :
        (user : ℕ) (w : World)
        → Ends
            (λ a v. Logged (deserved kind limit user (f user w.now w.db)) w v)
            Never
            (check_user kind limit (λ u. query (λ now d. some (f u now d, d))) user w)
    unfolding check_user
    check_user-Logged user w =
        recover-Ends Q (λ e v. Logged (deserved kind limit user (f user w.now w.db)) w v) Never _ _
          (proceed-Ends (λ n v. (n ≡ f user w.now w.db) × Idle w v) Q E _ _
            (Ends-mono (λ n v. (n ≡ f user w.now w.db) × Idle w v)
              {R = λ n v. (n ≡ f user w.now w.db) × Idle w v} (λ e v. Failed w v) {F = E} _
              (λ n v k. k) (λ e v k. Failed-Logged _ k) (read-Idle (f user) w))
            λ n v k.
              Ends-mono (λ a u. Logged (deserved kind limit user n) v u) {R = Q} (λ e u. Failed v u)
                {F = E} _
                (λ a u l.
                  after-Idle k.1 (subst (λ m. Logged (deserved kind limit user m) v u) k.0 l))
                (λ e u l. after-Idle k.1 (Failed-Logged _ l)) (flag-Logged user n v))
          (λ e v l. l)
      where
        Q : Unit {0} → World → Type 0
        Q a v = Logged (deserved kind limit user (f user w.now w.db)) w v

        E : Error → World → Type 0
        E e v = Logged (deserved kind limit user (f user w.now w.db)) w v

    -- Where the count is of orders and events.
    module _
        (keeps : (user now : ℕ) (d e : Database)
          → e.orders ≡ d.orders
          → e.events ≡ d.events
          → f user now e ≡ f user now d) where
      same_count :
          (user : ℕ) (bs : List Brief) (w v : World)
          → Logged bs w v
          → f user v.now v.db ≡ f user w.now w.db
      same_count user bs w v l =
          ap (λ now. f user now v.db) l.now ∙ keeps user w.now w.db v.db l.orders l.events

      same_deserved :
          (bs : List Brief) (w v : World)
          → Logged bs w v
          → (us : List ℕ)
          → all_deserved kind limit (λ u. f u v.now v.db) us
            ≡ all_deserved kind limit (λ u. f u w.now w.db) us
      same_deserved bs w v l [] = refl
      same_deserved bs w v l (u ∷ us) =
          ap (λ n. deserved kind limit u n ++ all_deserved kind limit (λ x. f x v.now v.db) us)
            (same_count u bs w v l)
          ∙ ap (λ r. deserved kind limit u (f u w.now w.db) ++ r) (same_deserved bs w v l us)

      pub check_users-Logged :
          (us : List ℕ) (w : World)
          → Ends
              (λ a v. Logged (all_deserved kind limit (λ u. f u w.now w.db) us) w v)
              Never
              (check_users kind limit (λ u. query (λ now d. some (f u now d, d))) us w)
      unfolding check_users
      check_users-Logged [] w = Idle-Logged (record { now = refl; db = refl; calm = λ c. c })
      check_users-Logged (u ∷ us) w =
          proceed-Ends (λ a v. Logged (deserved kind limit u (f u w.now w.db)) w v) _ Never _ _
            (check_user-Logged u w)
            λ a v l.
              Ends-mono (λ b x. Logged (all_deserved kind limit (λ y. f y v.now v.db) us) v x) Never
                _
                (λ b x k.
                  Logged-trans (deserved kind limit u (f u w.now w.db))
                    (all_deserved kind limit (λ y. f y w.now w.db) us) l
                    (subst (λ bs. Logged bs v x) (same_deserved _ w v l us) k))
                (λ e x never. never) (check_users-Logged us v)
