-- ===== src/Middleware/Opening.antt =====
-- When the setup gate opens, and that it stays open.
use w1t.Base.{
  Bool, true, false, not, ◌||◌, ◌≡◌, ◌≢◌, refl, sym, ap, ◌∙◌, ◌⊎◌, inl, inr, List, [], ◌∷◌, ◌++◌,
  Option, none, some, arith, exists, if◌then◌else◌,
}
use w1t.Middleware.{next, refuse}
use w1t.Middleware.Setup.{
  SetupGate, Visit, closed_gate, is_stale, note_answer, is_complete, require_setup, serve,
}

-- The database answers the request that there is an administrator.
abbrev pub sees_admin : Visit → Bool
sees_admin v = elim v.admin [ none ↦ false | some found ↦ found ]

refused_is_not_next : (r : _) → refuse r ≢ next
refused_is_not_next r e = ground arith

-- What one request does: the gate is complete afterwards just where the request passed, and that needs
-- a gate that was complete, or an administrator.
Latches : Visit → SetupGate → Bool × SetupGate → Type 0
Latches v g r =
    (r.1.complete ≡ r.0)
    × ((g.complete ≡ true → r.0 ≡ true)
        × (r.0 ≡ true → (g.complete ≡ true) ⊎ (sees_admin v ≡ true)))

latched :
    (complete stale : Bool) (v : Visit) (g : SetupGate)
    → g.complete ≡ complete
    → Latches v g (
        if complete
        then (true, g)
        else if not stale
        then (false, g)
        else note_answer v.now v.admin g)
unfolding Latches
latched true stale v g e = (e, ((λ _. refl), λ _. inl e))
latched false false v g e = (e, ((λ h. absurd (ground arith)), λ h. absurd (ground arith)))
latched false true v g e = answered v.admin
  where
    answered :
        (admin : Option Bool)
        → ((note_answer v.now admin g).1.complete ≡ (note_answer v.now admin g).0)
          × ((g.complete ≡ true → (note_answer v.now admin g).0 ≡ true)
              × ((note_answer v.now admin g).0 ≡ true
                  → (g.complete ≡ true)
                    ⊎ (elim admin [ none ↦ false | some found ↦ found ] ≡ true)))
    answered none = (e, ((λ h. absurd (ground arith)), λ h. absurd (ground arith)))
    answered (some true) = (refl, ((λ h. refl), λ h. inr refl))
    answered (some false) = (e, ((λ h. absurd (ground arith)), λ h. absurd (ground arith)))

is_complete-Latches : (v : Visit) (g : SetupGate) → Latches v g (is_complete v g)
unfolding is_complete
is_complete-Latches v g = latched g.complete (is_stale v.now g.checked) v g refl

-- The request passes.
abbrev pub Passes : Visit → SetupGate → Type 0
Passes v g = (require_setup v g).0 ≡ next

Passes-complete : (v : Visit) (g : SetupGate) → Passes v g → (require_setup v g).1.complete ≡ true
unfolding require_setup Latches
Passes-complete v g h = (is_complete-Latches v g).0 ∙ tested _ h
  where
    tested :
        (b : Bool)
        → (if b then next else refuse (record { status = 503; code = "ERR_SETUP_REQUIRED" })) ≡ next
        → b ≡ true
    tested true h = refl
    tested false h = absurd (refused_is_not_next _ h)

complete-Passes : (v : Visit) (g : SetupGate) → (require_setup v g).1.complete ≡ true → Passes v g
unfolding require_setup Latches
complete-Passes v g h = rw (sym ((is_complete-Latches v g).0) ∙ h) refl

complete_stays :
    (v : Visit) (g : SetupGate) → g.complete ≡ true → (require_setup v g).1.complete ≡ true
unfolding require_setup Latches
complete_stays v g h = (is_complete-Latches v g).0 ∙ (is_complete-Latches v g).1.0 h

complete_cause :
    (v : Visit) (g : SetupGate)
    → (require_setup v g).1.complete ≡ true
    → (g.complete ≡ true) ⊎ (sees_admin v ≡ true)
unfolding require_setup Latches
complete_cause v g h = (is_complete-Latches v g).1.1 (sym ((is_complete-Latches v g).0) ∙ h)

serve-stays : (vs : List Visit) (g : SetupGate) → g.complete ≡ true → (serve vs g).complete ≡ true
unfolding serve
serve-stays [] g h = h
serve-stays (v ∷ vs) g h = serve-stays vs _ (complete_stays v g h)

or_right : (a : Bool) {b : Bool} → b ≡ true → a || b ≡ true
or_right true h = refl
or_right false h = h

serve-cause :
    (vs : List Visit) (g : SetupGate)
    → (serve vs g).complete ≡ true
    → (g.complete ≡ true) ⊎ (exists sees_admin vs ≡ true)
unfolding serve
serve-cause [] g h = inl h
serve-cause (v ∷ vs) g h = elim (serve-cause vs _ h) [
  | inr later ↦ inr (or_right (sees_admin v) later)
  | inl before ↦ elim (complete_cause v g before) [
    | inl start ↦ inl start
    | inr here ↦ inr (rw here refl)
  ]
]

serve-append : (vs ws : List Visit) (g : SetupGate) → serve (vs ++ ws) g ≡ serve ws (serve vs g)
unfolding serve
serve-append [] ws g = refl
serve-append (v ∷ vs) ws g = serve-append vs ws _

-- From a gate that has just been made: where a request passes, some request up to it found an
-- administrator, and every later request passes too, whatever the database answers then.
pub gate_opens_for_good :
    (vs : List Visit) (v : Visit) (ws : List Visit) (w : Visit)
    → Passes v (serve vs closed_gate)
    → (exists sees_admin (vs ++ v ∷ []) ≡ true) × Passes w (serve (vs ++ v ∷ ws) closed_gate)
unfolding serve
gate_opens_for_good vs v ws w h = (cause, complete-Passes w _ (complete_stays w _ later))
  where
    done : (require_setup v (serve vs closed_gate)).1.complete ≡ true
    done = Passes-complete v _ h

    cause : exists sees_admin (vs ++ v ∷ []) ≡ true
    cause =
        elim (serve-cause (vs ++ v ∷ []) closed_gate
          (ap (λ (g : SetupGate). g.complete) (serve-append vs (v ∷ []) closed_gate) ∙ done)) [
            | inl start ↦ absurd (ground arith)
            | inr seen ↦ seen
          ]

    later : (serve (vs ++ v ∷ ws) closed_gate).complete ≡ true
    later =
        ap (λ (g : SetupGate). g.complete) (serve-append vs (v ∷ ws) closed_gate)
        ∙ serve-stays ws _ done
