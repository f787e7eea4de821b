-- ===== src/Model/Order.antt =====
-- repo/backend/internal/model/order.go: orders, their statuses and the transition log.
use w1t.Base.{ℕ, String, Bool, true, false, List, [], ◌∷◌, Option, ◌==◌, if◌then◌else◌}

-- `OrderStatus`. `unset` is the empty string, which only a log entry holds.
pub data OrderStatus : Type 0 where
  unset pending confirmed processing completed cancelled : OrderStatus

abbrev pub status_tag : OrderStatus → ℕ
status_tag unset = 0
status_tag pending = 1
status_tag confirmed = 2
status_tag processing = 3
status_tag completed = 4
status_tag cancelled = 5

abbrev pub status_eq : OrderStatus → OrderStatus → Bool
status_eq s t = status_tag s == status_tag t

-- `AllowedTransitions`; a missing key reads as no entry.
unfoldable pub allowed_transitions : OrderStatus → List OrderStatus
allowed_transitions pending = confirmed ∷ cancelled ∷ []
allowed_transitions confirmed = processing ∷ cancelled ∷ []
allowed_transitions processing = completed ∷ []
allowed_transitions completed = []
allowed_transitions cancelled = []
allowed_transitions unset = []

-- the loop of `CanTransitionTo`
abbrev listed : OrderStatus → List OrderStatus → Bool
listed target [] = false
listed target (allowed ∷ rest) = if status_eq allowed target then true else listed target rest

unfoldable pub can_transition_to : OrderStatus → OrderStatus → Bool
unfolding allowed_transitions
can_transition_to s target = listed target (allowed_transitions s)

-- `dto.UpdateFulfillmentRequest`, which the service stores as JSON.
pub record Fulfillment : Type 0 where
  pub carrier : String
  pub tracking_number : String

-- `Order`. `fulfillment_tracking = none` is the empty object of the `COALESCE`.
pub record Order : Type 0 where
  pub id : ℕ
  pub idempotency_key : String
  pub buyer_id : ℕ
  pub collectible_id : ℕ
  pub seller_id : ℕ
  pub status : OrderStatus
  pub price_snapshot_cents : ℕ
  pub cancellation_reason : String
  pub cancelled_by : Option ℕ
  pub fulfillment_tracking : Option Fulfillment
  pub created_at : ℕ
  pub updated_at : ℕ

-- `OrderStateTransition`
pub record OrderStateTransition : Type 0 where
  pub order_id : ℕ
  pub from_status : OrderStatus
  pub to_status : OrderStatus
  pub actor_id : ℕ
  pub reason : String
  pub created_at : ℕ
