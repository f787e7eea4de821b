-- ===== src/Anomalies/Detection.antt =====
-- What a run of the detector adds to the anomalies.
use mathlib.Core.List.{append_assoc, append-nil}
use w1t.Base.{
  ℕ, ◌≤◌, Bool, true, false, ◌≡◌, refl, sym, ap, ◌∙◌, List, [], ◌∷◌, ◌++◌, map, some, arith, count,
  count-append,
}
use w1t.Model.Analytics.{AnomalyType, AnomalyEvent}
use w1t.World.{World, Database}
use w1t.Action.{query, fault_or, next_fault, later_faults}
use w1t.Action.Rules.{Ends, Ends-mono}
use w1t.Action.Calm.{IsCalm}

-- What an anomaly says: the user, the kind, the count and the limit.
abbrev pub Brief : Type 0
Brief = ℕ × (AnomalyType × (ℕ × ℕ))

abbrev pub brief : AnomalyEvent → Brief
brief a = (a.user_id, (a.anomaly_type, a.details))

-- From `w` to `v`, anomalies are new, and at most those of `bs`; all of them where no call fails.
pub record Logged (bs : List Brief) (w v : World) : Type 0 where
  pub now : v.now ≡ w.now
  pub orders : v.db.orders ≡ w.db.orders
  pub events : v.db.events ≡ w.db.events
  pub new : List AnomalyEvent
  pub added : v.db.anomalies ≡ w.db.anomalies ++ new
  pub within : (p : Brief → Bool) → count p (map brief new) ≤ count p bs
  pub full : IsCalm w → IsCalm v × (map brief new ≡ bs)

-- A call that changed no table, and failed or not.
pub record Idle (w v : World) : Type 0 where
  pub now : v.now ≡ w.now
  pub db : v.db ≡ w.db
  pub calm : IsCalm w → IsCalm v

pub record Failed (w v : World) : Type 0 where
  pub now : v.now ≡ w.now
  pub db : v.db ≡ w.db
  pub not_calm : IsCalm w → ⊥

module _ {A : Type 0} (h : ℕ → Database → A × Database) where
  -- A statement that breaks no index fails only in a world where calls fail.
  pub total-Ends :
      (w : World)
      → Ends
          (λ a v.
            (◌≡◌ {A = A × Database} (h w.now w.db) (a, v.db))
            × (v.now ≡ w.now)
            × (IsCalm w → IsCalm v))
          (λ e v. Failed w v)
          (query (λ now d. some (h now d)) w)
  unfolding query
  total-Ends w = by_faults w.faults refl
    where
      by_faults :
          (fs : List Bool)
          → w.faults ≡ fs
          → Ends
              (λ a v.
                (◌≡◌ {A = A × Database} (h w.now w.db) (a, v.db))
                × (v.now ≡ w.now)
                × (IsCalm w → IsCalm v))
              (λ e v. Failed w v)
              (fault_or
                (next_fault fs)
                (λ d. some (h w.now d))
                (record w { faults = later_faults fs }))
      by_faults [] e = (refl, refl, λ calm. refl)
      by_faults (true ∷ fs) e = record {
        now = refl;
        db = refl;
        not_calm = λ calm. ground (arith, e, calm);
      }
      by_faults (false ∷ fs) e = (refl, refl, λ calm. absurd (ground (arith, e, calm)))

module _ {A : Type 0} (f : ℕ → Database → A) where
  pub read-Idle :
      (w : World)
      → Ends
          (λ a v. (a ≡ f w.now w.db) × Idle w v)
          (λ e v. Failed w v)
          (query (λ now d. some (f now d, d)) w)
  read-Idle w =
      Ends-mono _ {R = λ a v. (a ≡ f w.now w.db) × Idle w v} (λ e v. Failed w v)
        {F = λ e v. Failed w v} _
        (λ a v k. (
          sym (ap (λ (p : A × Database). p.0) k.0),
          record { now = k.1; db = sym (ap (λ (p : A × Database). p.1) k.0); calm = k.2 },
        ))
        (λ e v k. k) (total-Ends (λ now d. (f now d, d)) w)

pub Idle-Logged : {w v : World} → Idle w v → Logged [] w v
Idle-Logged {w} {v} h = record {
  now = h.now;
  orders = ap (λ (d : Database). d.orders) h.db;
  events = ap (λ (d : Database). d.events) h.db;
  new = [];
  added = ap (λ (d : Database). d.anomalies) h.db ∙ sym (append-nil w.db.anomalies);
  within = λ p. omega arith;
  full = λ calm. (h.calm calm, refl);
}

pub Failed-Logged : (bs : List Brief) {w v : World} → Failed w v → Logged bs w v
Failed-Logged bs {w} {v} h = record {
  now = h.now;
  orders = ap (λ (d : Database). d.orders) h.db;
  events = ap (λ (d : Database). d.events) h.db;
  new = [];
  added = ap (λ (d : Database). d.anomalies) h.db ∙ sym (append-nil w.db.anomalies);
  within = λ p. omega arith;
  full = λ calm. absurd (h.not_calm calm);
}

map-append : {A B : Type 0} (f : A → B) (xs ys : List A) → map f (xs ++ ys) ≡ map f xs ++ map f ys
map-append f [] ys = refl
map-append f (x ∷ xs) ys = ap (λ l. f x ∷ l) (map-append f xs ys)

pub Logged-trans :
    (bs cs : List Brief) {u v w : World} → Logged bs u v → Logged cs v w → Logged (bs ++ cs) u w
Logged-trans bs cs {u} {v} {w} h k = record {
  now = k.now ∙ h.now;
  orders = k.orders ∙ h.orders;
  events = k.events ∙ h.events;
  new = h.new ++ k.new;
  added = k.added ∙ ap (λ l. l ++ k.new) h.added ∙ append_assoc u.db.anomalies h.new k.new;
  within = λ p.
      rw
        (
          map-append brief h.new k.new,
          count-append p (map brief h.new) (map brief k.new),
          count-append p bs cs,
        )
        (omega (arith, h.within p, k.within p));
  full = λ calm.
      let (calm', e) = h.full calm in
      let (calm'', e') = k.full calm' in
      (
        calm'',
        map-append brief h.new k.new ∙ ap (λ l. l ++ map brief k.new) e ∙ ap (λ l. bs ++ l) e',
      );
}
