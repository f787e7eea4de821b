-- ===== src/Orders.antt =====
-- Orders: repo/backend/internal/store/order_store.go (Store) and
-- internal/service/order_service.go (Service), with what is proved of them.
pub mod Store
pub mod Service
mod Rules
pub mod Invariant
pub mod Evolution
pub mod Placement
pub mod Create
pub mod Lookup
pub mod StatusWrites
pub mod Transition
pub mod Aftercare
pub mod Changes
pub mod History
pub mod Promises
pub mod Refusals
pub mod Verdict
pub mod StepVerdict
mod Tests
