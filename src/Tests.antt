-- ===== src/Tests.antt =====
-- Concrete inputs, and the theorems applied to them.
pub mod Data
mod Page
mod Requests
mod Sheet
mod Moves
mod Locks
mod Api
mod Drop
mod Session
mod Keys
mod Till
mod Dates
mod Desk
mod Settings
