-- ===== src/Tests/Locks.antt =====
-- The selection lock and the lock index at concrete runs.
use greenlink.Prelude.{
  ℕ, String, ◌≡◌, refl, true, false, Option, some, [], ◌∷◌, arith, any, All, ◌==◌, string_eq,
  eq_iff,
}
use greenlink.Types.Lock.{TeeSheetLockResponse}
use greenlink.SelectionLock.{
  LockAcquireResult, LockRenewResult, held_by_me, LockHook, mounted, select, acquire_success, tick,
  renew_success, unmount, compute_remaining_seconds,
}
use greenlink.SelectionLock.Runs.{
  Config, start, selects, acquires, Reach, here, next, IsSound, Reach-IsSound, unmount-released,
}
use greenlink.SelectionLock.Stale.{stale_renewal, held_first, held_second}
use greenlink.Tests.Data.{lock_of}

-- Every lock expires 30 seconds from the start.
abbrev clock : String → Option ℕ
clock s = some 30000

abbrev holding : Config
holding = record {
  hook =
      acquire_success (some "me") "t1" (LockAcquireResult.lock (lock_of "l1" "t1"))
        (select (some "t1") (some "c1") mounted);
  granted = "l1" ∷ [];
}

holding_reached : Reach (some "me") clock start holding
unfolding select
holding_reached =
    next (next here (selects (some "t1") (some "c1")))
      (acquires "t1" (LockAcquireResult.lock (lock_of "l1" "t1")) refl (λ l e s. cc))

Reach-IsSound_example : IsSound holding
Reach-IsSound_example = Reach-IsSound (some "me") clock holding_reached

unmount-released_example :
    All (λ id. any (λ r. r == id) (unmount holding.hook).released ≡ true) ("l1" ∷ [])
unmount-released_example = unmount-released (some "me") clock holding_reached

abbrev first_lock : TeeSheetLockResponse
first_lock = lock_of "l1" "t1"

abbrev second_lock : TeeSheetLockResponse
second_lock = lock_of "l2" "t2"

-- The operator selects t1, a tick asks for a renewal, and t2 is selected before it is answered.
abbrev before_answer : LockHook
before_answer = held_second (some "me") (some "c1") clock 0 "t1" "t2" first_lock second_lock

abbrev behind_answer : LockHook
behind_answer = renew_success (LockRenewResult.lock first_lock) before_answer

stale_renewal_example :
    ((tick clock 0 (held_first (some "me") (some "c1") "t1" first_lock)).renewal_in_flight ≡ true)
    × (before_answer.state ≡ held_by_me second_lock)
    × (behind_answer.state ≡ held_by_me first_lock)
    × (behind_answer.active_slot ≡ some "t2")
    × (any (λ r. r == "l2") (unmount behind_answer).released ≡ false)
unfolding compute_remaining_seconds
stale_renewal_example =
    stale_renewal (some "me") (some "c1") clock 0 "t1" "t2" first_lock second_lock first_lock
      (omega arith) (omega arith) refl (ground (arith, eq_iff "l2" "l1"))
