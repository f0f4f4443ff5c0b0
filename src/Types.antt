-- ===== src/Types.antt =====
-- The payload types of frontend/src/types.
pub mod Json
pub mod Booking
pub mod Pos
pub mod Orders
pub mod Session
pub mod TeeSheet
pub mod Lock
pub mod Results
pub mod Pricing
