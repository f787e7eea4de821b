-- ===== src/Experiments/Rules.antt =====
-- Emitting an event changes no table and never fails.
use w1t.Base.{ℕ, String, Bool, true, false, refl, [], Option, none, some, select}
use w1t.Errors.{Error}
use w1t.World.{World}
use w1t.Action.{catch, pure, spawn}
use w1t.Action.Rules.{Ends, Same, proceed-Ends, recover-Ends, Ends-mono, read-Same}
use w1t.Action.Frame.{Frame, Frame-refl, read-Frame}
use w1t.Action.Calm.{IsCalm, Never, Serves, read_calm, proceed_ok, proceed-Serves, recover_ok}
use w1t.Experiments.{
  is_running, emit_event, emit_for, resolve_ab_variant, resolve_for, list_running_ab_tests,
}

list_running-Ends :
    (w : World) → Ends (Same w.db) Never (catch list_running_ab_tests (λ e. pure []) w)
unfolding list_running_ab_tests
list_running-Ends w =
    recover-Ends (Same w.db) (λ e. Same w.db e) Never _ _ (read-Same _ w) (λ e v h. h)

resolve_for-Ends :
    (u : Option ℕ) (b : Bool) (show : ℕ → String) (w : World)
    → Ends (Same w.db) Never (resolve_for u b show w)
unfolding resolve_for
resolve_for-Ends none b show w = refl
resolve_for-Ends (some u) false show w = refl
resolve_for-Ends (some u) true show w =
    proceed-Ends (Same w.db) (Same w.db) Never _ _ (list_running-Ends w) (λ a v h. h)

resolve_ab_variant-Ends :
    (u : Option ℕ) (w : World) → Ends (Same w.db) Never (resolve_ab_variant u w)
unfolding resolve_ab_variant
resolve_ab_variant-Ends u w = resolve_for-Ends u w.env.has_analytics w.env.uuid_string w

emit_for-Ends :
    (b : Bool) (u : Option ℕ) (t : String) (c : Option ℕ) (w : World)
    → Ends (Same w.db) Never (emit_for b u t c w)
unfolding emit_for spawn
emit_for-Ends false u t c w = refl
emit_for-Ends true u t c w =
    proceed-Ends (Same w.db) (Same w.db) Never _ _ (resolve_ab_variant-Ends u w) (λ a v h. h)

emit_event_quiet :
    (u : Option ℕ) (t : String) (c : Option ℕ) (w : World)
    → Ends (Same w.db) Never (emit_event u t c w)
unfolding emit_event
emit_event_quiet u t c w = emit_for-Ends w.env.has_analytics u t c w

pub emit_event-Ends :
    (E : Error → World → Type 0) (u : Option ℕ) (t : String) (c : Option ℕ) (w : World)
    → Ends (Same w.db) E (emit_event u t c w)
emit_event-Ends E u t c w =
    Ends-mono (Same w.db) Never _ (λ a v h. h) (λ e v h. absurd h) (emit_event_quiet u t c w)

resolve_for-Serves :
    (u : Option ℕ) (b : Bool) (show : ℕ → String) (w : World)
    → IsCalm w
    → Serves (Same w.db) (resolve_for u b show w)
unfolding resolve_for list_running_ab_tests
resolve_for-Serves none b show w calm = (refl, calm)
resolve_for-Serves (some u) false show w calm = (refl, calm)
resolve_for-Serves (some u) true show w calm =
    proceed_ok (Serves (Same w.db)) _ _
      (recover_ok (list_running_ab_tests w) (λ e. pure [])
        (read_calm (λ now d. select is_running d.ab_tests) w calm))
      (refl, calm)

emit_for-Serves :
    (b : Bool) (u : Option ℕ) (t : String) (c : Option ℕ) (w : World)
    → IsCalm w
    → Serves (Same w.db) (emit_for b u t c w)
unfolding emit_for spawn resolve_ab_variant
emit_for-Serves false u t c w calm = (refl, calm)
emit_for-Serves true u t c w calm =
    proceed-Serves (Serves (Same w.db)) (Same w.db) _ _
      (resolve_for-Serves u w.env.has_analytics w.env.uuid_string w calm) (λ a v h k. (h, k))

-- Where no call fails, none fails after an event either.
pub emit_event-Serves :
    (u : Option ℕ) (t : String) (c : Option ℕ) (w : World)
    → IsCalm w
    → Serves (Same w.db) (emit_event u t c w)
unfolding emit_event
emit_event-Serves u t c w calm = emit_for-Serves w.env.has_analytics u t c w calm

resolve_for-Frame :
    (u : Option ℕ) (b : Bool) (show : ℕ → String) (w : World)
    → Ends (λ a v. Frame w v) Never (resolve_for u b show w)
unfolding resolve_for list_running_ab_tests
resolve_for-Frame none b show w = Frame-refl w
resolve_for-Frame (some u) false show w = Frame-refl w
resolve_for-Frame (some u) true show w =
    proceed-Ends (λ a v. Frame w v) (λ a v. Frame w v) Never _ _
      (recover-Ends (λ a v. Frame w v) (λ e v. Frame w v) Never _ _
        (Ends-mono _ {R = λ a v. Frame w v} (λ e v. Frame w v) {F = λ e v. Frame w v} _
          (λ a v h. h.1) (λ e v h. h) (read-Frame (λ now d. select is_running d.ab_tests) w))
        (λ e v h. h))
      (λ a v h. h)

emit_for-Frame :
    (b : Bool) (u : Option ℕ) (t : String) (c : Option ℕ) (w : World)
    → Ends (λ a v. Frame w v) Never (emit_for b u t c w)
unfolding emit_for spawn resolve_ab_variant
emit_for-Frame false u t c w = Frame-refl w
emit_for-Frame true u t c w =
    proceed-Ends (λ a v. Frame w v) (λ a v. Frame w v) Never _ _
      (resolve_for-Frame u w.env.has_analytics w.env.uuid_string w)
      (λ a v h. record { env = h.env; db = h.db; cache = h.cache })

pub emit_event-Frame :
    (E : Error → World → Type 0) (u : Option ℕ) (t : String) (c : Option ℕ) (w : World)
    → Ends (λ a v. Frame w v) E (emit_event u t c w)
unfolding emit_event
emit_event-Frame E u t c w =
    Ends-mono (λ a v. Frame w v) Never _ (λ a v h. h) (λ e v h. absurd h)
      (emit_for-Frame w.env.has_analytics u t c w)
