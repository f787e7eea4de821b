-- ===== src/Notifications/Preferences.antt =====
-- Which events the preferences of a user leave out.
use w1t.Base.{
  String, Bool, true, false, ◌≡◌, ◌⊎◌, inl, inr, List, [], ◌∷◌, some, arith, find, str_eq,
  str_eq_iff, Bool-cases,
}
use w1t.Model.Notification.{NotificationPreferences}
use w1t.Notifications.Service.{is_disabled, is_muted, is_status_only_slug}

abbrev pub names : String → String × Bool → Bool
names slug (s, enabled) = str_eq s slug

-- The event is switched off.
abbrev pub SwitchedOff : String → List (String × Bool) → Type 0
SwitchedOff slug prefs = (s : String) × (find (names slug) prefs ≡ some (s, false))

-- The event is switched off, or it is no change of status and only those are subscribed to.
abbrev pub Muted : NotificationPreferences → String → Type 0
Muted p slug =
    SwitchedOff slug p.preferences
    ⊎ ((p.subscription_mode ≡ "status_only") × (is_status_only_slug slug ≡ false))

disabled-SwitchedOff :
    (slug : String) (ps : List (String × Bool)) → is_disabled slug ps ≡ true → SwitchedOff slug ps
disabled-SwitchedOff slug ((s, enabled) ∷ ps) h = elim (Bool-cases (str_eq s slug)) [
  | inl hit ↦ (s, ground (arith, hit, h))
  | inr miss ↦
      let (t, found) = disabled-SwitchedOff slug ps (ground (arith, miss, h)) in
      (t, ground (arith, miss, found))
]
disabled-SwitchedOff slug [] h = absurd (ground (arith, h))

SwitchedOff-disabled :
    (slug : String) (ps : List (String × Bool)) → SwitchedOff slug ps → is_disabled slug ps ≡ true
SwitchedOff-disabled slug [] (s, h) = cc
SwitchedOff-disabled slug ((t, enabled) ∷ ps) (s, h) = elim (Bool-cases (str_eq t slug)) [
  | inl hit ↦ ground (arith, hit, h)
  | inr miss ↦
      let rest : is_disabled slug ps ≡ true =
        SwitchedOff-disabled slug ps (s, ground (arith, miss, h)) in
      ground (arith, miss, rest)
]

pub is_muted-Muted :
    (p : NotificationPreferences) (slug : String) → is_muted p slug ≡ true → Muted p slug
is_muted-Muted p slug h = elim (Bool-cases (is_disabled slug p.preferences)) [
  | inl off ↦ inl (disabled-SwitchedOff slug p.preferences off)
  | inr on ↦ inr (
    (str_eq_iff p.subscription_mode "status_only").0 (ground (arith, h, on)),
    ground (arith, h, on),
  )
]

pub Muted-is_muted :
    (p : NotificationPreferences) (slug : String) → Muted p slug → is_muted p slug ≡ true
Muted-is_muted p slug (inl off) =
    let h : is_disabled slug p.preferences ≡ true = SwitchedOff-disabled slug p.preferences off in
    ground (arith, h)
Muted-is_muted p slug (inr (mode, other)) =
    let h : str_eq p.subscription_mode "status_only" ≡ true =
      (str_eq_iff p.subscription_mode "status_only").1 mode in
    ground (arith, h, other)
