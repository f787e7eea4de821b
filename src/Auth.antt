-- ===== src/Auth.antt =====
-- Accounts and sessions: repo/backend/internal/store/user_store.go (Store) and
-- internal/service/auth_service.go (Service).
pub mod Store
pub mod Service
pub mod Lockout
pub mod Sessions
pub mod Reuse
pub mod BruteForce
mod Tests
