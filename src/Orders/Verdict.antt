-- ===== src/Orders/Verdict.antt =====
-- When `OrderService.Create` accepts and when it refuses, where no database call fails.
use w1t.Base.{
  ℕ, suc, ◌++◌, [], ◌∷◌, String, Bool, true, false, not, ◌≡◌, refl, sym, ap, subst, ◌∙◌, Option,
  none, some, arith, find, exists, ◌==◌, if◌then◌else◌, inl, inr, Bool-cases,
  not-exists_of_find-none,
}
use w1t.Errors.{Sentinel, sentinel, not_found, validation, oversold}
use w1t.Model.Order.{Order}
use w1t.Model.Collectible.{Collectible}
use w1t.World.{World, Database}
use w1t.Action.{Result, ok, err, Action, proceed, transaction, roll_back, answer}
use w1t.Action.Rules.{Same, Ends-mono}
use w1t.Action.Calm.{
  IsCalm, Never, Serves, query_calm, read_calm, proceed_ok, proceed-Serves, recover_ok,
  recover-Serves, served,
}
use w1t.Experiments.Rules.{emit_event-Serves}
use w1t.Collectibles.Store.{has_id as has_collectible_id, get_by_id as get_collectible}
use w1t.Orders.Store.{
  has_key, is_active_for, get_by_idempotency_key, has_active_order, acquire_advisory_lock, begin_tx,
  commit, create_in_tx, insert_order, record_transition,
}
use w1t.Orders.Refusals.{Verdict, errors_is_self, proceed_err, refuse_if-cases, found-cases}
use w1t.Orders.Service.{is_published, new_order, place_order, create_new, create}

-- The reason to refuse an order, read off the tables.
abbrev pub refusal_of : ℕ → Bool → Option Collectible → Option Sentinel
refusal_of buyer busy none = some not_found
refusal_of buyer busy (some c) =
    if not (is_published c)
    then some not_found
    else if c.seller_id == buyer
    then some validation
    else if busy
    then some oversold
    else none

abbrev pub refusal : ℕ → ℕ → Database → Option Sentinel
refusal collectible_id buyer d =
    refusal_of buyer (exists (is_active_for collectible_id) d.orders)
      (find (has_collectible_id collectible_id) d.collectibles)

module _ (collectible_id : ℕ) (key : String) (c : Collectible) (buyer : ℕ) where
  place_busy :
      (w : World)
      → IsCalm w
      → exists (is_active_for collectible_id) w.db.orders ≡ true
      → (v : World) × (place_order collectible_id key c buyer w ≡ err (sentinel oversold "") v)
  unfolding place_order acquire_advisory_lock has_active_order
  place_busy w calm busy = proceed_ok P _ _ (recover_ok _ _ (read_calm (λ now d. tt) w calm)) (
      proceed_ok P _ _
        (recover_ok _ _
          (read_calm (λ now d. exists (is_active_for collectible_id) d.orders) w calm))
        (refuse_if-cases P buyer collectible_id w calm _ _ _ (λ h v. (v, refl))
          (λ h. absurd (ground (arith, h, busy)))))
    where
      P : Result Order → Type 0
      P r = (v : World) × (r ≡ err (sentinel oversold "") v)

  create_in_tx_calm :
      (w : World)
      → IsCalm w
      → exists (has_key buyer key) w.db.orders ≡ false
      → Serves (λ o v. Unit) (create_in_tx (new_order key buyer c collectible_id) w)
  unfolding create_in_tx
  create_in_tx_calm w calm unused =
      subst (Serves (λ o v. Unit))
        (sym (
          query_calm (insert_order (new_order key buyer c collectible_id)) w calm
          ∙ ap (λ (b : Bool). answer (if b then none else some (row, after)) w) unused))
        (tt, calm)
    where
      row : Order
      row = record (new_order key buyer c collectible_id) {
        id = w.db.next_id;
        created_at = w.now;
        updated_at = w.now;
      }

      after : Database
      after = record w.db { next_id = suc w.db.next_id; orders = w.db.orders ++ (row ∷ []) }

  place_idle :
      (w : World)
      → IsCalm w
      → exists (is_active_for collectible_id) w.db.orders ≡ false
      → exists (has_key buyer key) w.db.orders ≡ false
      → Serves (λ o v. Unit) (place_order collectible_id key c buyer w)
  unfolding place_order acquire_advisory_lock has_active_order record_transition commit
  place_idle w calm idle unused =
      proceed_ok P _ _ (recover_ok _ _ (read_calm (λ now d. tt) w calm)) (
        proceed_ok P _ _
          (recover_ok _ _
            (read_calm (λ now d. exists (is_active_for collectible_id) d.orders) w calm))
          (refuse_if-cases P buyer collectible_id w calm _ _ _
            (λ h v. absurd (ground (arith, h, idle)))
            (λ h.
              proceed-Serves P (λ o v. Unit) _ _
                (recover-Serves (λ o v. Unit) _ _ (create_in_tx_calm w calm unused))
                (λ o v _ calm'. proceed_ok P _ _ (recover_ok _ _ (query_calm _ v calm')) (
                  proceed_ok P _ _ (recover_ok _ _ (read_calm (λ now d. tt) _ calm'))
                    (tt, calm'))))))
    where
      P : Result Order → Type 0
      P = Serves (λ o v. Unit)

module _ (collectible_id : ℕ) (buyer : ℕ) (key : String) (w : World) (calm : IsCalm w)
    (unused : find (has_key buyer key) w.db.orders ≡ none) where
  abbrev busy : Bool
  busy = exists (is_active_for collectible_id) w.db.orders

  abbrev row : Option Collectible
  row = find (has_collectible_id collectible_id) w.db.collectibles

  P : Result Order → Type 0
  P = Verdict (refusal collectible_id buyer w.db)

  refused :
      (s : Sentinel) (m : String) (v : World)
      → refusal collectible_id buyer w.db ≡ some s
      → P (err (sentinel s m) v)
  unfolding P
  refused s m v h =
      subst (λ (r : Option Sentinel). Verdict {A = Order} r (err (sentinel s m) v)) (sym h)
        (errors_is_self s m)

  -- `P` of the transaction, and of what follows it.
  module _ (c : Collectible) (listed : row ≡ some c) (shown : is_published c ≡ true)
      (foreign : (c.seller_id == buyer) ≡ false) where
    sold :
        (f : Order → Action Order)
        → ((o : Order) (v : World) → IsCalm v → Serves (λ p u. Unit) (f o v))
        → P (proceed (transaction (place_order collectible_id key c buyer) w) f)
    unfolding transaction P
    sold f rest = elim (Bool-cases busy) [
      | inl taken ↦
          let (v, failed) = place_busy collectible_id key c buyer w calm taken in
          proceed_err P _ f (ap (roll_back w.db) failed)
            (refused oversold "" _ (ground (arith, listed, shown, foreign, taken)))
      | inr idle ↦
          let (o, v, made, _, calm') =
            served (λ o v. Unit) _
              (place_idle collectible_id key c buyer w calm idle
                (not-exists_of_find-none (has_key buyer key) w.db.orders unused)) in
          proceed_ok P _ f (ap (roll_back w.db) made) (
            subst (λ (r : Option Sentinel). Verdict r (f o v)) (sym (accepted idle))
              (Ends-mono (λ p u. Unit × IsCalm u) Never (f o v) (λ p u h. tt) (λ e u h. h)
                (rest o v calm')))
    ]
      where
        accepted : busy ≡ false → refusal collectible_id buyer w.db ≡ none
        accepted idle = ground (arith, listed, shown, foreign, idle)

  create_new-Verdict : P (create_new collectible_id buyer key w)
  unfolding create_new get_collectible begin_tx
  create_new-Verdict =
      proceed_ok P _ _
        (recover_ok _ _
          (read_calm (λ now d. find (has_collectible_id collectible_id) d.collectibles) w calm))
        (found-cases P buyer collectible_id w calm row _ _
          (λ h v. refused not_found "" v (ground (arith, h)))
          (λ c listed.
            refuse_if-cases P buyer collectible_id w calm _ _ _
              (λ h v. refused not_found "" v (ground (arith, listed, h)))
              (λ shown.
                refuse_if-cases P buyer collectible_id w calm _ _ _
                  (λ h v. refused validation _ v (ground (arith, listed, shown, h)))
                  (λ foreign. proceed_ok P _ _ (recover_ok _ _ (read_calm (λ now d. tt) w calm)) (
                    sold c listed (ground (arith, shown)) foreign _ (λ o v calm'.
                      proceed-Serves (Serves (λ p u. Unit)) (Same v.db) _ _
                        (emit_event-Serves (some buyer) "order_created" (some collectible_id) v
                          calm')
                        (λ a u same k. (tt, k))))))))

  -- Where no database call fails and the buyer has not used the key, `Create` fails as not found for
  -- a collectible that is missing or hidden, as invalid for the buyer's own, as oversold for one
  -- with an active order, in this order; and in no other case: then it succeeds.
  pub create-Verdict :
      Verdict (refusal collectible_id buyer w.db) (create collectible_id buyer key w)
  unfolding create get_by_idempotency_key P
  create-Verdict =
      proceed_ok P _ _
        (recover_ok _ _ (
          read_calm (λ now d. find (has_key buyer key) d.orders) w calm
          ∙ ap (λ (o : Option Order). ok o w) unused))
        create_new-Verdict
