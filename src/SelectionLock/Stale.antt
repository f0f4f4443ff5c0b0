-- ===== src/SelectionLock/Stale.antt =====
-- The ticker, and a renewal that is answered behind a change of the selection.
use greenlink.Prelude.{
  ℕ, ◌≤◌, ◌<◌, String, ◌≡◌, ◌≢◌, refl, true, false, Option, some, arith, ◌==◌, string_eq, any,
  eq_iff, str_eq_refl,
}
use greenlink.Types.Lock.{TeeSheetLockResponse}
use greenlink.SelectionLock.{
  LockAcquireResult, LockRenewResult, held_by_me, error, LockHook, mounted, select, acquire_success,
  tick, renew_success, unmount, compute_remaining_seconds,
}

-- What one round of the ticker does, by the seconds left.
pub record Ticks (get_time : String → Option ℕ) (now : ℕ) (l : TeeSheetLockResponse) (h : LockHook)
    : Type 0 where
  pub expired :
      compute_remaining_seconds get_time l.expires_at now ≡ 0
      → (tick get_time now h).state ≡ error "Lock TTL expired"
  pub renewed :
      0 < compute_remaining_seconds get_time l.expires_at now
      → compute_remaining_seconds get_time l.expires_at now ≤ 30
      → tick get_time now h ≡ record h { renewal_in_flight = true }
  pub waits : 30 < compute_remaining_seconds get_time l.expires_at now → tick get_time now h ≡ h

-- While the hook holds a lock, a tick gives it up at 0 seconds left, has a renewal in flight from 30
-- seconds down, and changes nothing above.
pub tick-Ticks :
    (get_time : String → Option ℕ) (now : ℕ) (l : TeeSheetLockResponse) (h : LockHook)
    → h.state ≡ held_by_me l
    → h.current_lock ≡ some l
    → Ticks get_time now l h
unfolding tick
tick-Ticks get_time now l h e k = record {
  expired = λ z. ground arith;
  renewed = λ p q. ground arith;
  waits = λ p. ground arith;
}

-- Two selections in a row, with the renewal of the first lock asked for at a tick between them.
abbrev pub held_first : Option String → Option String → String → TeeSheetLockResponse → LockHook
held_first user course a la =
    acquire_success user a (LockAcquireResult.lock la) (select (some a) course mounted)

abbrev pub held_second :
    Option String
    → Option String
    → (String → Option ℕ)
    → ℕ
    → String
    → String
    → TeeSheetLockResponse
    → TeeSheetLockResponse
    → LockHook
held_second user course get_time now a b la lb =
    acquire_success user b (LockAcquireResult.lock lb)
      (select (some b) course (tick get_time now (held_first user course a la)))

-- If the selection has moved to slot `b` before the renewal of the lock of slot `a` is answered,
-- the answer puts the lock of `a` back: the hook shows it as held, the selection is `b`, and the
-- lock of `b` is not released on unmount.
pub stale_renewal :
    (user course : Option String) (get_time : String → Option ℕ) (now : ℕ) (a b : String)
    (la lb ra : TeeSheetLockResponse)
    → 0 < compute_remaining_seconds get_time la.expires_at now
    → compute_remaining_seconds get_time la.expires_at now ≤ 30
    → ra.id ≡ la.id
    → lb.id ≢ la.id
    → ((tick get_time now (held_first user course a la)).renewal_in_flight ≡ true)
      × ((held_second user course get_time now a b la lb).state ≡ held_by_me lb)
      × ((renew_success
            (LockRenewResult.lock ra)
            (held_second user course get_time now a b la lb)).state
          ≡ held_by_me ra)
      × ((renew_success
            (LockRenewResult.lock ra)
            (held_second user course get_time now a b la lb)).active_slot
          ≡ some b)
      × (any
            (λ r. r == lb.id)
            (unmount (
              renew_success
                (LockRenewResult.lock ra)
                (held_second user course get_time now a b la lb))).released
          ≡ false)
unfolding select acquire_success tick renew_success unmount
stale_renewal user course get_time now a b la lb ra p q e ne = (
  ground (arith, str_eq_refl a),
  ground (arith, str_eq_refl a, str_eq_refl b),
  refl,
  ground (arith, str_eq_refl a, str_eq_refl b),
  ground (arith, str_eq_refl a, str_eq_refl b, eq_iff la.id lb.id, eq_iff ra.id lb.id),
)
