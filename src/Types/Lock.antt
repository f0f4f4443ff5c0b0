-- ===== src/Types/Lock.antt =====
-- frontend/src/types/tee-sheet-locks.ts.
use greenlink.Prelude.{ℕ, String, List}

pub record TeeSheetLockAcquireRequest : Type 0 where
  pub course_id : String
  pub slot_datetime : String

pub record TeeSheetLockResponse : Type 0 where
  pub id : String
  pub club_id : String
  pub course_id : String
  pub slot_datetime : String
  pub holder_user_id : String
  pub holder_display_name : String
  pub acquired_at : String
  pub expires_at : String
  pub remaining_seconds : ℕ

pub record TeeSheetLockConflictDetail : Type 0 where
  pub existing_lock : TeeSheetLockResponse
  pub message : String

pub record TeeSheetLockListResponse : Type 0 where
  pub locks : List TeeSheetLockResponse
