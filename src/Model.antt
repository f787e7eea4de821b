-- ===== src/Model.antt =====
-- repo/backend/internal/model: the rows of the database.
pub mod Order
pub mod Collectible
pub mod Analytics
pub mod Notification
pub mod User
pub mod Message
