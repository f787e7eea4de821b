-- ===== src/Notifications/Lifecycle.antt =====
-- The life of one notification, by what `attempted` says of a run of the worker.
use w1t.Base.{
  ℕ, ◌+◌, ◌*◌, ◌^◌, ◌≤◌, ◌<◌, Bool, true, false, ◌≡◌, refl, sym, ap, subst, ◌∙◌, List, [], ◌∷◌,
  Option, none, some, arith, leb, length, if◌then◌else◌,
}
use w1t.Model.Notification.{Notification, failed, permanently_failed}
use w1t.Notifications.Store.{is_pending, is_due, is_past}
use w1t.Notifications.Worker.{DeliveryFunc, delivers, Outcome, first_outcome, retry_outcome}
use w1t.Notifications.Delivery.{attempted, settle}

-- The attempts made do not exceed those allowed, and all are used up where there are no more.
pub record IsCounted (n : Notification) : Type 0 where
  pub within : n.retry_count ≤ n.max_retries
  pub spent : n.status ≡ permanently_failed → n.retry_count ≡ n.max_retries

-- The outcome of a first attempt, or of another one, for a notification that allows `max`.
IsFair : ℕ → Outcome → Type 0
IsFair max (s, retries, next) = (retries ≤ max) × (s ≡ permanently_failed → retries ≡ max)

first-IsFair : (max now : ℕ) (b : Bool) → IsFair max (first_outcome now b)
unfolding IsFair
first-IsFair max now true = (omega arith, λ e. absurd (ground (arith, e)))
first-IsFair max now false = (omega arith, λ e. absurd (ground (arith, e)))

retry-IsFair :
    (max now count : ℕ) (b : Bool)
    → count + 1 ≤ max
    → IsFair max (retry_outcome now (count + 1) max b)
unfolding IsFair
retry-IsFair max now count true h = (h, λ e. absurd (ground (arith, e)))
retry-IsFair max now count false h = by_limit (leb max (count + 1)) refl
  where
    by_limit :
        (c : Bool)
        → leb max (count + 1) ≡ c
        → IsFair max (
            if c
            then (permanently_failed, count + 1, none)
            else (failed, count + 1, some (now + 2 ^ (count + 1 + 1) * 60)))
    by_limit true e = (h, λ _. ground (arith, e, h))
    by_limit false e = (h, λ x. absurd (ground (arith, x)))

settle-IsCounted :
    (o : Outcome) (now : ℕ) (n : Notification) → IsFair n.max_retries o → IsCounted (settle o now n)
unfolding IsFair
settle-IsCounted (s, retries, next) now n h = record { within = h.0; spent = h.1 }

-- `attempted` keeps the count of a notification within the retries that it is allowed, and at their number
-- where it fails for good.
pub attempted-IsCounted :
    (hook : Option DeliveryFunc) (now : ℕ) (n : Notification)
    → IsCounted n
    → IsCounted (attempted hook now n)
attempted-IsCounted hook now n h = by_state (is_pending n) (is_due now n) refl
  where
    by_state :
        (p d : Bool)
        → is_due now n ≡ d
        → IsCounted (
            if p
            then settle (first_outcome now (delivers hook n)) now n
            else if d
            then settle
                (retry_outcome now (n.retry_count + 1) n.max_retries (delivers hook n))
                now
                n
            else n)
    by_state true d e = settle-IsCounted _ now n (first-IsFair n.max_retries now (delivers hook n))
    by_state false true e =
        settle-IsCounted _ now n
          (retry-IsFair n.max_retries now n.retry_count (delivers hook n) (ground (arith, e)))
    by_state false false e = h

-- Runs at the times of the list.
unfoldable pub runs : Option DeliveryFunc → List ℕ → Notification → Notification
runs hook [] n = n
runs hook (t ∷ ts) n = runs hook ts (attempted hook t n)

-- Each run comes when the notification is due again.
abbrev pub InTime : Option DeliveryFunc → List ℕ → Notification → Type 0
InTime hook [] n = Unit
InTime hook (t ∷ ts) n = (is_past t n.next_retry_at ≡ true) × InTime hook ts (attempted hook t n)

module _ (hook : Option DeliveryFunc) (broken : (n : Notification) → delivers hook n ≡ false) where
  again :
      (t : ℕ) (n : Notification)
      → n.status ≡ failed
      → is_past t n.next_retry_at ≡ true
      → n.retry_count < n.max_retries
      → attempted hook t n ≡ settle (retry_outcome t (n.retry_count + 1) n.max_retries false) t n
  again t n s past few =
      ap
        (λ (b : Bool).
          if b
          then settle (first_outcome t (delivers hook n)) t n
          else if is_due t n
          then settle (retry_outcome t (n.retry_count + 1) n.max_retries (delivers hook n)) t n
          else n)
        not_waiting
      ∙ ap
          (λ (b : Bool).
            if b
            then settle (retry_outcome t (n.retry_count + 1) n.max_retries (delivers hook n)) t n
            else n)
          due
      ∙ ap (λ (b : Bool). settle (retry_outcome t (n.retry_count + 1) n.max_retries b) t n)
          (broken n)
    where
      not_waiting : is_pending n ≡ false
      not_waiting = ground (arith, s)

      due : is_due t n ≡ true
      due = ground (arith, s, past, few)

  ended :
      (t : ℕ) (n : Notification)
      → leb n.max_retries (n.retry_count + 1) ≡ true
      → settle (retry_outcome t (n.retry_count + 1) n.max_retries false) t n
        ≡ settle (permanently_failed, n.retry_count + 1, none) t n
  ended t n h =
      ap
        (λ (b : Bool).
          settle
            (if b
              then (permanently_failed, n.retry_count + 1, none)
              else (failed, n.retry_count + 1, some (t + 2 ^ (n.retry_count + 1 + 1) * 60)))
            t n)
        h

  waits :
      (t : ℕ) (n : Notification)
      → leb n.max_retries (n.retry_count + 1) ≡ false
      → settle (retry_outcome t (n.retry_count + 1) n.max_retries false) t n
        ≡ settle (failed, n.retry_count + 1, some (t + 2 ^ (n.retry_count + 1 + 1) * 60)) t n
  waits t n h =
      ap
        (λ (b : Bool).
          settle
            (if b
              then (permanently_failed, n.retry_count + 1, none)
              else (failed, n.retry_count + 1, some (t + 2 ^ (n.retry_count + 1 + 1) * 60)))
            t n)
        h

  abbrev GaveUp : ℕ → Notification → Type 0
  GaveUp max m = (m.status ≡ permanently_failed) × (m.retry_count ≡ max)

  -- Where delivery always fails, a failed notification with `k` retries left, and due at each of `k`
  -- times, has failed for good by `attempted` at these times, and has used all its retries.
  pub runs_give_up :
      (ts : List ℕ) (n : Notification)
      → n.status ≡ failed
      → n.retry_count < n.max_retries
      → n.retry_count + length ts ≡ n.max_retries
      → InTime hook ts n
      → ((runs hook ts n).status ≡ permanently_failed)
        × ((runs hook ts n).retry_count ≡ n.max_retries)
  unfolding runs
  runs_give_up [] n s few left past = absurd (omega (arith, few, left))
  runs_give_up (t ∷ []) n s few left past =
      subst (GaveUp n.max_retries) (sym (again t n s past.0 few ∙ ended t n (ground (arith, left))))
        (refl, omega (arith, left))
  runs_give_up (t ∷ t' ∷ ts) n s few left past =
      let e : attempted hook t n
          ≡ settle (failed, n.retry_count + 1, some (t + 2 ^ (n.retry_count + 1 + 1) * 60)) t n =
        again t n s past.0 few ∙ waits t n (ground (arith, left)) in
      let count : (attempted hook t n).retry_count ≡ n.retry_count + 1 =
        ap (λ (m : Notification). m.retry_count) e in
      let max : (attempted hook t n).max_retries ≡ n.max_retries =
        ap (λ (m : Notification). m.max_retries) e in
      subst (λ k. GaveUp k (runs hook (t' ∷ ts) (attempted hook t n))) max
        (runs_give_up (t' ∷ ts) (attempted hook t n) (ap (λ (m : Notification). m.status) e)
          (omega (arith, count, max, left)) (omega (arith, count, max, left)) past.1)
