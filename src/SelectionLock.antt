-- ===== src/SelectionLock.antt =====
-- frontend/src/features/tee-sheet/use-selection-lock.ts: the lock that follows the selected slot,
-- and the lock calls of frontend/src/api/operations.ts that it rests on.
--
-- The hook is a record of its state and refs. Each effect and each callback is a function on it,
-- with what its closure captured as arguments; which callback runs, and when, is a sequence of
-- events. Requests to release are collected in `released`. Milliseconds are natural numbers, and
-- the reading of `expires_at` is a parameter, none where it is no date.
pub mod Runs
pub mod Stale
use greenlink.Prelude.{
  ℕ, ◌-◌, ◌/◌, String, Bool, true, false, ◌&&◌, Option, none, some, List, [], ◌∷◌, ltb, leb,
  if◌then◌else◌, ◌==◌, ◌!=◌, string_eq, option_eq, not,
}
use greenlink.Prelude.Text.{is_set}
use greenlink.Types.Lock.{TeeSheetLockResponse}

pub data LockAcquireResult : Type 0 where
  lock : TeeSheetLockResponse → LockAcquireResult
  conflict : TeeSheetLockResponse → String → LockAcquireResult

pub data LockRenewResult : Type 0 where
  lock : TeeSheetLockResponse → LockRenewResult
  conflict : Option TeeSheetLockResponse → String → LockRenewResult

pub data SelectionLockState : Type 0 where
  idle : SelectionLockState
  acquiring : SelectionLockState
  held_by_me : TeeSheetLockResponse → SelectionLockState
  held_by_other : TeeSheetLockResponse → SelectionLockState
  releasing : SelectionLockState
  error : String → SelectionLockState

abbrev pub renewal_threshold_seconds : ℕ
renewal_threshold_seconds = 30

-- `state`, `activeSlotRef`, `currentLockRef` and `renewalInFlightRef`
pub record LockHook : Type 0 where
  pub state : SelectionLockState
  pub active_slot : Option String
  pub current_lock : Option TeeSheetLockResponse
  pub renewal_in_flight : Bool
  pub released : List String

abbrev pub mounted : LockHook
mounted = record {
  state = idle;
  active_slot = none;
  current_lock = none;
  renewal_in_flight = false;
  released = [];
}

abbrev pub release_lock : Option TeeSheetLockResponse → List String → List String
release_lock none released = released
release_lock (some l) released = l.id ∷ released

abbrev cleared_state : Option TeeSheetLockResponse → SelectionLockState
cleared_state none = idle
cleared_state (some _) = releasing

-- The effect on a change of the selection or the course. With both set it asks for a lock of the
-- selected slot.
unfoldable pub select : Option String → Option String → LockHook → LockHook
select selected_slot_key course_id h = record {
  state =
      if is_set selected_slot_key && is_set course_id
      then acquiring
      else cleared_state h.current_lock;
  active_slot = selected_slot_key;
  current_lock = none;
  renewal_in_flight = h.renewal_in_flight;
  released = release_lock h.current_lock h.released;
}

-- The promise that settles `releasing` to `idle`.
unfoldable pub settle : LockHook → LockHook
settle h = record h { state = idle }

abbrev stale_release : LockAcquireResult → List String → List String
stale_release (LockAcquireResult.lock l) released = l.id ∷ released
stale_release (LockAcquireResult.conflict _ _) released = released

abbrev adopt : TeeSheetLockResponse → LockHook → LockHook
adopt l h = record h { state = held_by_me l; current_lock = some l }

abbrev apply_acquired : Option String → LockAcquireResult → LockHook → LockHook
apply_acquired user (LockAcquireResult.lock l) h = adopt l h
apply_acquired user (LockAcquireResult.conflict existing _) h =
    if is_set user && some existing.holder_user_id == user
    then adopt existing h
    else record h { state = held_by_other existing }

-- `onSuccess` of the request for `slot`
unfoldable pub acquire_success : Option String → String → LockAcquireResult → LockHook → LockHook
acquire_success current_user_id slot result h =
    if h.active_slot != some slot
    then record h { released = stale_release result h.released }
    else apply_acquired current_user_id result h

unfoldable pub acquire_error : String → String → LockHook → LockHook
acquire_error slot message h =
    if h.active_slot != some slot then h else record h { state = error message }

-- Math.max(0, Math.floor((expiresMs - nowMs) / 1000)), and 0 for no date
unfoldable pub compute_remaining_seconds : (String → Option ℕ) → String → ℕ → ℕ
compute_remaining_seconds get_time expires_at now_ms = elim (get_time expires_at) [
  | none ↦ 0
  | some expires_ms ↦ (expires_ms - now_ms) / 1000
]

abbrev is_mine : SelectionLockState → Bool
is_mine (held_by_me _) = true
is_mine _ = false

abbrev tick_held : ℕ → LockHook → LockHook
tick_held remaining h =
    if leb remaining 0
    then record h { state = error "Lock TTL expired" }
    else if leb remaining renewal_threshold_seconds && not h.renewal_in_flight
    then record h { renewal_in_flight = true }
    else h

abbrev tick_lock : (String → Option ℕ) → ℕ → Option TeeSheetLockResponse → LockHook → LockHook
tick_lock get_time now none h = h
tick_lock get_time now (some l) h =
    tick_held (compute_remaining_seconds get_time l.expires_at now) h

-- One round of the interval. It asks for a renewal where it raises `renewal_in_flight`.
unfoldable pub tick : (String → Option ℕ) → ℕ → LockHook → LockHook
unfolding compute_remaining_seconds
tick get_time now h = if is_mine h.state then tick_lock get_time now h.current_lock h else h

-- The callbacks of a renewal. They do not look at the selection.
unfoldable pub renew_success : LockRenewResult → LockHook → LockHook
renew_success (LockRenewResult.lock l) h = record h {
  state = held_by_me l;
  current_lock = some l;
  renewal_in_flight = false;
}
renew_success (LockRenewResult.conflict _ message) h = record h {
  state = error message;
  current_lock = none;
  renewal_in_flight = false;
}

unfoldable pub renew_error : LockHook → LockHook
renew_error h = record h { state = error "Renew failed"; renewal_in_flight = false }

-- The cleanup on unmount.
unfoldable pub unmount : LockHook → LockHook
unmount h = record h { current_lock = none; released = release_lock h.current_lock h.released }

-- The seconds that the footer shows.
unfoldable pub seconds_remaining : (String → Option ℕ) → ℕ → LockHook → ℕ
unfolding compute_remaining_seconds
seconds_remaining get_time now h = elim h.state [
  | held_by_me l ↦ compute_remaining_seconds get_time l.expires_at now
  | held_by_other l ↦ compute_remaining_seconds get_time l.expires_at now
  | _ ↦ 0
]

unfoldable pub holder_display_name : LockHook → Option String
holder_display_name h = elim h.state [ held_by_other l ↦ some l.holder_display_name | _ ↦ none ]
