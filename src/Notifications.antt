-- ===== src/Notifications.antt =====
-- Notifications: repo/backend/internal/store/notification_store.go (Store),
-- internal/service/notification_service.go (Service) and internal/worker/notification_retry.go
-- (Worker).
pub mod Store
pub mod Service
pub mod Worker
pub mod Preferences
pub mod Delivery
pub mod Lifecycle
pub mod History
pub mod Sending
mod Tests
