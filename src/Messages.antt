-- ===== src/Messages.antt =====
-- Messages between the buyer and the seller of an order, with one attachment at most, and the search for
-- personal data in them.
pub mod Store
pub mod Service
pub mod Access
pub mod Sending
pub mod Pii
pub mod Language
pub mod Scan
pub mod Runs
pub mod Upload
pub mod Screening
mod Tests
