-- ===== src/Collectibles.antt =====
-- Collectibles: repo/backend/internal/store/collectible_store.go (Store) and
-- internal/service/collectible_service.go (Service).
pub mod Store
pub mod Service
pub mod Coherence
pub mod Upkeep
pub mod Visibility
pub mod Listing
pub mod Catalogue
pub mod History
mod Tests
