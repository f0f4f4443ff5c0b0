-- ===== src/GolfPage.antt =====
-- frontend/src/pages/admin-golf-tee-sheet-page.tsx: the desk's tee sheet. The filters of this page
-- are in Filters, its moves in BookingMove, and the merge of a lane's slots in Lanes.
pub mod Groups
pub mod Slots
pub mod Matching
pub mod Party
pub mod Feedback
pub mod Drawer
pub mod Batch
pub mod Focus
