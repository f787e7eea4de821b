-- ===== src/Action/Rules.antt =====
-- Rules for the actions of `Action`: what holds after a call, by how it ended.
use w1t.Base.{ℕ, Bool, true, false, ◌≡◌, refl, Option, none, some}
use w1t.Errors.{Error, store, duplicate_key, unavailable}
use w1t.World.{World, Database}
use w1t.Action.{
  Result, ok, err, Action, proceed, recover, fail_if, found, query, fault_or, answer, next_fault,
  later_faults, roll_back, transaction,
}

-- `Q a w` after a success with `a`, and `E e w` after an error.
abbrev pub Ends : {A : Type 0} → (A → World → Type 0) → (Error → World → Type 0) → Result A → Type 0
Ends Q E (ok a w) = Q a w
Ends Q E (err e w) = E e w

module _ {A B : Type 0} (Q : A → World → Type 0) (R : B → World → Type 0)
    (E : Error → World → Type 0) where
  pub proceed-Ends :
      (r : Result A) (f : A → Action B)
      → Ends Q E r
      → ((a : A) (w : World) → Q a w → Ends R E (f a w))
      → Ends R E (proceed r f)
  unfolding proceed
  proceed-Ends (ok a w) f h k = k a w h
  proceed-Ends (err e w) f h k = h

module _ {A : Type 0} (Q : A → World → Type 0) (E F : Error → World → Type 0) where
  pub recover-Ends :
      (r : Result A) (h : Error → Action A)
      → Ends Q E r
      → ((e : Error) (w : World) → E e w → Ends Q F (h e w))
      → Ends Q F (recover r h)
  unfolding recover
  recover-Ends (ok a w) h p k = p
  recover-Ends (err e w) h p k = k e w p

module _ {A : Type 0} (Q : A → World → Type 0) {R : A → World → Type 0} (E : Error → World → Type 0)
    {F : Error → World → Type 0} where
  pub Ends-mono :
      (r : Result A)
      → ((a : A) (w : World) → Q a w → R a w)
      → ((e : Error) (w : World) → E e w → F e w)
      → Ends Q E r
      → Ends R F r
  Ends-mono (ok a w) q f p = q a w p
  Ends-mono (err e w) q f p = f e w p

module _ {A : Type 0} (Q : A → World → Type 0) (E : Error → World → Type 0) where
  answer-Ends :
      (r : Option (A × Database)) (w : World)
      → ((e : Error) → E e w)
      → ((a : A) (d : Database) → r ≡ some (a, d) → Q a (record w { db = d }))
      → Ends Q E (answer r w)
  answer-Ends none w f q = f (store duplicate_key)
  answer-Ends (some (a, d)) w f q = q a d refl

  fault_or-Ends :
      (b : Bool) (g : Database → Option (A × Database)) (w : World)
      → ((e : Error) → E e w)
      → ((a : A) (d : Database) → g w.db ≡ some (a, d) → Q a (record w { db = d }))
      → Ends Q E (fault_or b g w)
  fault_or-Ends true g w f q = f (store unavailable)
  fault_or-Ends false g w f q = answer-Ends (g w.db) w f q

  -- A statement fails and leaves the tables as they were, or answers from them.
  pub query-Ends :
      (g : ℕ → Database → Option (A × Database)) (w : World)
      → ((e : Error) (v : World) → v.db ≡ w.db → E e v)
      → ((a : A) (v : World) → g w.now w.db ≡ some (a, v.db) → Q a v)
      → Ends Q E (query g w)
  unfolding query
  query-Ends g w f q =
      fault_or-Ends (next_fault w.faults) (g w.now) (record w { faults = later_faults w.faults })
        (λ e. f e _ refl) (λ a d h. q a _ h)

  -- A statement of a transaction that fails takes the others with it.
  roll_back-Ends :
      (saved : Database) (r : Result A)
      → Ends Q (λ e v. Unit) r
      → ((e : Error) (v : World) → v.db ≡ saved → E e v)
      → Ends Q E (roll_back saved r)
  roll_back-Ends saved (ok a w) h k = h
  roll_back-Ends saved (err e w) h k = k e _ refl

  pub transaction-Ends :
      (m : Action A) (w : World)
      → Ends Q (λ e v. Unit) (m w)
      → ((e : Error) (v : World) → v.db ≡ w.db → E e v)
      → Ends Q E (transaction m w)
  unfolding transaction
  transaction-Ends m w h k = roll_back-Ends w.db (m w) h k

  pub found-Ends :
      (o : Option A) (e : Error) (w : World)
      → (o ≡ none → E e w)
      → ((a : A) → o ≡ some a → Q a w)
      → Ends Q E (found o e w)
  found-Ends none e w f q = f refl
  found-Ends (some a) e w f q = q a refl

module _ (Q : Unit {0} → World → Type 0) (E : Error → World → Type 0) where
  pub fail_if-Ends :
      (b : Bool) (e : Error) (w : World)
      → (b ≡ true → E e w)
      → (b ≡ false → Q tt w)
      → Ends Q E (fail_if b e w)
  fail_if-Ends true e w f q = f refl
  fail_if-Ends false e w f q = q refl

-- The tables are those of `d`, whatever was answered.
abbrev pub Same : {A : Type 0} → Database → A → World → Type 0
Same d a w = w.db ≡ d

-- The answer is `x`, and the tables are those of `d`.
abbrev pub Answers : {A : Type 0} → A → Database → A → World → Type 0
Answers x d a w = (a ≡ x) × (w.db ≡ d)

module _ {A : Type 0} (f : ℕ → Database → A) (w : World) where
  -- A statement that only reads.
  pub read-Answers :
      Ends (Answers (f w.now w.db) w.db) (λ e. Same w.db e) (query (λ now d. some (f now d, d)) w)
  read-Answers = query-Ends _ _ _ w (λ e v h. h) (λ a v h. (cc, cc))

  pub read-Same : Ends (Same w.db) (λ e. Same w.db e) (query (λ now d. some (f now d, d)) w)
  read-Same = query-Ends _ _ _ w (λ e v h. h) (λ a v h. cc)

  -- It fails just where its entry of `faults` says so.
  pub read_or_fault :
      Ends
        (Answers (f w.now w.db) w.db)
        (λ e v. (e ≡ store unavailable) × (next_fault w.faults ≡ true) × (v.db ≡ w.db))
        (query (λ now d. some (f now d, d)) w)
  unfolding query
  read_or_fault = by_fault (next_fault w.faults) refl
    where
      by_fault :
          (b : Bool)
          → next_fault w.faults ≡ b
          → Ends
              (Answers (f w.now w.db) w.db)
              (λ e v. (e ≡ store unavailable) × (next_fault w.faults ≡ true) × (v.db ≡ w.db))
              (fault_or b (λ d. some (f w.now d, d)) (record w { faults = later_faults w.faults }))
      by_fault true h = (refl, h, refl)
      by_fault false h = (refl, refl)
