-- ===== src/Cache.antt =====
-- repo/backend/internal/cache/hot_cache.go: entries that expire, by key. The lock around each method
-- makes it one step.
use w1t.Base.{
  ℕ, ◌+◌, String, Bool, not, List, ◌∷◌, Option, none, some, ltb, str_eq, find, select, starts_with,
  if◌then◌else◌,
}

-- `entry` with its key.
pub record Entry (A : Type 0) : Type 0 where
  pub key : String
  pub value : A
  pub expires_at : ℕ

abbrev pub HotCache : Type 0 → Type 0
HotCache A = List (Entry A)

module _ {A : Type 0} where
  abbrev pub is_at : String → Entry A → Bool
  is_at key e = str_eq e.key key

  abbrev pub is_expired : ℕ → Entry A → Bool
  is_expired now e = ltb e.expires_at now

  abbrev pub value_at : ℕ → Option (Entry A) → Option A
  value_at now none = none
  value_at now (some e) = if is_expired now e then none else some e.value

  -- `Get`
  unfoldable pub get : String → ℕ → HotCache A → Option A
  get key now c = value_at now (find (is_at key) c)

  -- `Delete`
  unfoldable pub delete : String → HotCache A → HotCache A
  delete key c = select (λ e. not (is_at key e)) c

  -- `Set`
  unfoldable pub set : String → A → ℕ → ℕ → HotCache A → HotCache A
  unfolding delete
  set key value ttl now c =
      record { key = key; value = value; expires_at = now + ttl } ∷ delete key c

  -- One tick of `cleanup`
  unfoldable pub cleanup : ℕ → HotCache A → HotCache A
  cleanup now c = select (λ e. not (is_expired now e)) c

-- `DeletePrefix`
unfoldable pub delete_prefix : {A : Type 0} → String → HotCache A → HotCache A
delete_prefix prefix c = select (λ e. not (starts_with prefix e.key)) c
