-- ===== src/Action.antt =====
-- Go functions that return `(T, error)` and act on the world: a state and error monad in which an
-- error keeps the state reached so far, and the shapes in which the services call the stores.
pub mod Rules
pub mod Calm
pub mod Steady
pub mod Frame
use w1t.Base.{ℕ, String, Bool, true, false, List, [], ◌∷◌, ◌++◌, Option, none, some}
use w1t.Errors.{Sentinel, Error, sentinel, store, wrapped, duplicate_key, unavailable}
use w1t.World.{World, Database, Task}

-- How a call ended, and the world that it left.
pub data Result (A : Type 0) : Type 0 where
  ok : A → World → Result A
  err : Error → World → Result A

abbrev pub Action : Type 0 → Type 0
Action A = World → Result A

abbrev pub world_of : {A : Type 0} → Result A → World
world_of (ok a w) = w
world_of (err e w) = w

module _ {A : Type 0} where
  abbrev pub pure : A → Action A
  pure a w = ok a w

  abbrev pub raise : Error → Action A
  raise e w = err e w

  -- What follows a call, by how the call ended.
  unfoldable pub proceed : {B : Type 0} → Result A → (A → Action B) → Result B
  proceed (ok a w) f = f a w
  proceed (err e w) f = err e w

  -- `if err != nil { … }`
  unfoldable pub recover : Result A → (Error → Action A) → Result A
  recover (ok a w) h = ok a w
  recover (err e w) h = h e w

infixl 5 ◌>>=◌ ◌>>◌
abbrev pub ◌>>=◌ : {A B : Type 0} → Action A → (A → Action B) → Action B
◌>>=◌ m f w = proceed (m w) f

abbrev pub ◌>>◌ : {A B : Type 0} → Action A → Action B → Action B
m >> k = m >>= λ _. k

abbrev pub catch : {A : Type 0} → Action A → (Error → Action A) → Action A
catch m h w = recover (m w) h

-- `if err != nil { return fmt.Errorf("context: %w", err) }`
abbrev pub in_context : {A : Type 0} → String → Action A → Action A
in_context c m = catch m (λ e. raise (wrapped c e))

-- `_ = call()`
abbrev pub attempt : Action (Unit {0}) → Action (Unit {0})
attempt m = catch m (λ e. pure tt)

abbrev pub fail_if : Bool → Error → Action (Unit {0})
fail_if true e = raise e
fail_if false e = pure tt

-- `if x == nil { return …, err }`
abbrev pub found : {A : Type 0} → Option A → Error → Action A
found none e = raise e
found (some a) e = pure a

-- An action that depends on the clock, the configuration or the tables.
abbrev pub reading : {A : Type 0} → (World → Action A) → Action A
reading f w = f w w

abbrev pub next_fault : List Bool → Bool
next_fault [] = false
next_fault (b ∷ bs) = b

abbrev pub later_faults : List Bool → List Bool
later_faults [] = []
later_faults (b ∷ bs) = bs

-- The answer of a statement: its rows, or that it broke a unique index.
abbrev pub answer : {A : Type 0} → Option (A × Database) → World → Result A
answer none w = err (store duplicate_key) w
answer (some (a, d)) w = ok a record w { db = d }

abbrev pub fault_or : {A : Type 0} → Bool → (Database → Option (A × Database)) → World → Result A
fault_or true f w = err (store unavailable) w
fault_or false f w = answer (f w.db) w

-- One statement outside a transaction, or one within it. A statement that fails changes nothing.
unfoldable pub query : {A : Type 0} → (ℕ → Database → Option (A × Database)) → Action A
query f w = fault_or (next_fault w.faults) (f w.now) (record w { faults = later_faults w.faults })

-- `go func() { … }()`
unfoldable pub spawn : Task → Action (Unit {0})
spawn t w = ok tt record w { tasks = w.tasks ++ (t ∷ []) }

abbrev pub roll_back : {A : Type 0} → Database → Result A → Result A
roll_back saved (ok a w) = ok a w
roll_back saved (err e w) = err e record w { db = saved }

-- A transaction with `defer tx.Rollback(ctx)`: its statements are undone unless it commits.
unfoldable pub transaction : {A : Type 0} → Action A → Action A
transaction body w = roll_back w.db (body w)
