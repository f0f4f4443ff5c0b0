-- ===== src/Api/Locks.antt =====
-- The lock calls of frontend/src/api/operations.ts: what becomes of the answers of the backend. The
-- cast of a body to a lock is a parameter.
use greenlink.Prelude.{
  ℕ, String, ◌≡◌, ◌≢◌, refl, Option, none, some, arith, if◌then◌else◌, ◌==◌, nat_eq, Option-cases,
  inl, inr,
}
use greenlink.Types.Json.{Json, Fields, obj, member, as_text}
use greenlink.Types.Lock.{TeeSheetLockResponse, TeeSheetLockConflictDetail}
use greenlink.Move.{Outcome, ok, err}
use greenlink.SelectionLock.{LockAcquireResult, LockRenewResult}
use greenlink.Api.{Failure, api_error, thrown}

-- The answer of `apiRequest` to a request for a lock.
abbrev pub LockAnswer : Type 0
LockAnswer = Outcome Failure TeeSheetLockResponse

module _ (read_lock : Fields → TeeSheetLockResponse) where
  abbrev detail_of : Option Json → Option String → Option TeeSheetLockConflictDetail
  detail_of (some (obj fields)) (some message) =
      some (record { existing_lock = read_lock fields; message = message })
  detail_of _ _ = none

  -- An `existing_lock` that is an array would pass `typeof … === "object"` too; the backend sends
  -- an object.
  unfoldable pub unwrap_lock_conflict : Option Json → Option TeeSheetLockConflictDetail
  unwrap_lock_conflict body =
      let detail = member "detail" body in
      detail_of (member "existing_lock" detail) (as_text (member "message" detail))

  abbrev conflict_or :
      Failure → Option TeeSheetLockConflictDetail → Outcome Failure LockAcquireResult
  conflict_or failure none = err failure
  conflict_or failure (some detail) =
      ok (LockAcquireResult.conflict detail.existing_lock detail.message)

  unfoldable pub acquire_tee_sheet_lock : LockAnswer → Outcome Failure LockAcquireResult
  unfolding unwrap_lock_conflict
  acquire_tee_sheet_lock (ok lock) = ok (LockAcquireResult.lock lock)
  acquire_tee_sheet_lock (err (api_error status message body)) =
      if status == 409
      then conflict_or (api_error status message body) (unwrap_lock_conflict body)
      else err (api_error status message body)
  acquire_tee_sheet_lock (err (thrown e)) = err (thrown e)

  abbrev renew_conflict : String → Option TeeSheetLockConflictDetail → LockRenewResult
  renew_conflict message none = LockRenewResult.conflict none message
  renew_conflict message (some detail) =
      LockRenewResult.conflict (some detail.existing_lock) detail.message

  unfoldable pub renew_tee_sheet_lock : LockAnswer → Outcome Failure LockRenewResult
  unfolding unwrap_lock_conflict
  renew_tee_sheet_lock (ok lock) = ok (LockRenewResult.lock lock)
  renew_tee_sheet_lock (err (api_error status message body)) =
      if status == 409
      then ok (renew_conflict message (unwrap_lock_conflict body))
      else err (api_error status message body)
  renew_tee_sheet_lock (err (thrown e)) = err (thrown e)

  -- The lock calls by the answer of the backend.
  pub record Unwraps (status : ℕ) (message : String) (body : Option Json) : Type 0 where
    pub other_kept :
        status ≢ 409
        → (acquire_tee_sheet_lock (err (api_error status message body))
            ≡ err (api_error status message body))
          × (renew_tee_sheet_lock (err (api_error status message body))
              ≡ err (api_error status message body))
    pub renewal_lost :
        status ≡ 409
        → (existing : Option TeeSheetLockResponse) × (text : String) × (renew_tee_sheet_lock
              (err (api_error status message body))
            ≡ ok (LockRenewResult.conflict existing text))
    pub same_conflict :
        (l : TeeSheetLockResponse) (text : String)
        → acquire_tee_sheet_lock (err (api_error status message body))
          ≡ ok (LockAcquireResult.conflict l text)
        → renew_tee_sheet_lock (err (api_error status message body))
          ≡ ok (LockRenewResult.conflict (some l) text)

  renewal_conflict :
      (message : String) (o : Option TeeSheetLockConflictDetail)
      → (existing : Option TeeSheetLockResponse) × (text : String) × (renew_conflict message o
          ≡ LockRenewResult.conflict existing text)
  renewal_conflict message none = (none, message, refl)
  renewal_conflict message (some d) = (some d.existing_lock, d.message, refl)

  -- A refusal of the backend is passed on unless it is a 409. A renewal that is refused with a 409
  -- always ends as a conflict, whatever its body; and where a request for a lock reads a lock in the
  -- way out of the body, a renewal reads the same one.
  pub lock_calls-Unwraps :
      (status : ℕ) (message : String) (body : Option Json) → Unwraps status message body
  unfolding acquire_tee_sheet_lock renew_tee_sheet_lock
  lock_calls-Unwraps status message body = record {
    other_kept = λ h. (ground arith, ground arith);
    renewal_lost = λ h.
        let (existing, text, e) = renewal_conflict message (unwrap_lock_conflict body) in
        (existing, text, ground (arith, e));
    same_conflict = λ l text h. elim (Option-cases (unwrap_lock_conflict body)) [
      | inl nothing ↦ ground (arith, nothing, h)
      | inr (d, there) ↦ ground (arith, there, h)
    ];
  }
