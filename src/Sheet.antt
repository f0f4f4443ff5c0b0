-- ===== src/Sheet.antt =====
-- frontend/src/features/tee-sheet/sheet-shared.tsx: the rules of a tee sheet's slots and bookings.
pub mod Occupancy
pub mod Segments
pub mod Status
pub mod Transition
