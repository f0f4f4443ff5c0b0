-- ===== src/SelectionLock/Runs.antt =====
-- Runs of the hook in which no renewal is answered behind a change of the selection.
use greenlink.Prelude.{
  ℕ, String, ◌≡◌, Bool, true, false, ◌||◌, Option, none, some, List, [], ◌∷◌, arith, ◌==◌,
  string_eq, any, All, option_beq_iff, str_eq_refl, Option-cases, inl, inr,
}
use greenlink.Types.Lock.{TeeSheetLockResponse}
use greenlink.SelectionLock.{
  LockAcquireResult, LockRenewResult, held_by_me, LockHook, mounted, select, settle,
  acquire_success, acquire_error, tick, renew_success, renew_error, unmount,
}

-- The hook, and the ids of the locks that the backend has granted it.
pub record Config : Type 0 where
  pub hook : LockHook
  pub granted : List String

abbrev pub start : Config
start = record { hook = mounted; granted = [] }

-- The lock of an answer: the one granted, or the one that stands in the way.
abbrev pub answer_lock : LockAcquireResult → TeeSheetLockResponse
answer_lock (LockAcquireResult.lock l) = l
answer_lock (LockAcquireResult.conflict l _) = l

abbrev pub grant : LockAcquireResult → List String → List String
grant (LockAcquireResult.lock l) granted = l.id ∷ granted
grant (LockAcquireResult.conflict _ _) granted = granted

-- The events. The backend answers a request for a slot with a lock of that slot, and has one lock
-- at a time for a slot; a renewal is answered for the lock that is still held.
pub data Step (user : Option String) (get_time : String → Option ℕ) (c : Config)
    : Config → Type 0 where
  selects :
      (slot course : Option String)
      → Step user get_time c (record c { hook = select slot course c.hook })
  settles : Step user get_time c (record c { hook = settle c.hook })
  acquires :
      (slot : String) (result : LockAcquireResult)
      → (answer_lock result).slot_datetime ≡ slot
      → ((l : TeeSheetLockResponse)
          → c.hook.current_lock ≡ some l
          → l.slot_datetime ≡ slot
          → l.id ≡ (answer_lock result).id)
      → Step user get_time c (record {
        hook = acquire_success user slot result c.hook;
        granted = grant result c.granted;
      })
  acquire_fails :
      (slot message : String)
      → Step user get_time c (record c { hook = acquire_error slot message c.hook })
  ticks : (now : ℕ) → Step user get_time c (record c { hook = tick get_time now c.hook })
  renews :
      (l l' : TeeSheetLockResponse)
      → c.hook.current_lock ≡ some l
      → l'.id ≡ l.id
      → l'.slot_datetime ≡ l.slot_datetime
      → Step user get_time c (record c { hook = renew_success (LockRenewResult.lock l') c.hook })
  renew_fails : Step user get_time c (record c { hook = renew_error c.hook })

pub data Reach (user : Option String) (get_time : String → Option ℕ) (c : Config)
    : Config → Type 0 where
  here : Reach user get_time c c
  next : {d e : Config} → Reach user get_time c d → Step user get_time d e → Reach user get_time c e

abbrev pub is_current : String → Option TeeSheetLockResponse → Bool
is_current id none = false
is_current id (some l) = l.id == id

-- The lock has been given back, or is the one that will be.
abbrev pub accounted : LockHook → String → Bool
accounted h id = any (λ r. r == id) h.released || is_current id h.current_lock

-- The state shows a lock of ours only while the hook keeps it, the kept lock is one of the
-- selected slot, and no granted lock is lost.
pub record IsSound (c : Config) : Type 0 where
  pub shown :
      (l : TeeSheetLockResponse) → c.hook.state ≡ held_by_me l → c.hook.current_lock ≡ some l
  pub selected :
      (l : TeeSheetLockResponse)
      → c.hook.current_lock ≡ some l
      → c.hook.active_slot ≡ some l.slot_datetime
  pub none_lost : All (λ id. accounted c.hook id ≡ true) c.granted

accounted_mono :
    (h h' : LockHook) (ids : List String)
    → ((id : String) → accounted h id ≡ true → accounted h' id ≡ true)
    → All (λ id. accounted h id ≡ true) ids
    → All (λ id. accounted h' id ≡ true) ids
accounted_mono h h' [] f a = tt
accounted_mono h h' (id ∷ ids) f a = (f id a.0, accounted_mono h h' ids f a.1)

module _ (user : Option String) (get_time : String → Option ℕ) (c : Config) (s : IsSound c) where
  select-IsSound :
      (slot course : Option String) → IsSound (record c { hook = select slot course c.hook })
  unfolding select
  select-IsSound slot course = record {
    shown = λ l e. ground arith;
    selected = λ l e. cc;
    none_lost =
        accounted_mono c.hook (select slot course c.hook) c.granted (λ id a. ground arith)
          s.none_lost;
  }

  tick-IsSound : (now : ℕ) → IsSound (record c { hook = tick get_time now c.hook })
  unfolding tick
  tick-IsSound now = record {
    shown = λ l e. ground (arith, s.shown l);
    selected = λ l e. ground (arith, s.selected l);
    none_lost =
        accounted_mono c.hook (tick get_time now c.hook) c.granted (λ id a. ground arith)
          s.none_lost;
  }

  renew-IsSound :
      (l l' : TeeSheetLockResponse)
      → c.hook.current_lock ≡ some l
      → l'.id ≡ l.id
      → l'.slot_datetime ≡ l.slot_datetime
      → IsSound (record c { hook = renew_success (LockRenewResult.lock l') c.hook })
  unfolding renew_success
  renew-IsSound l l' e same_id same_slot = record {
    shown = λ m k. cc;
    selected = λ m k. ground (arith, s.selected l e);
    none_lost =
        accounted_mono c.hook (renew_success (LockRenewResult.lock l') c.hook) c.granted
          (λ id a. ground arith) s.none_lost;
  }

  acquire_keeps :
      (slot : String) (result : LockAcquireResult)
      → ((l : TeeSheetLockResponse)
          → c.hook.current_lock ≡ some l
          → l.slot_datetime ≡ slot
          → l.id ≡ (answer_lock result).id)
      → (id : String) → accounted c.hook id ≡ true
      → accounted (acquire_success user slot result c.hook) id ≡ true
  unfolding acquire_success
  acquire_keeps slot (LockAcquireResult.lock m) one id a = elim (Option-cases c.hook.current_lock) [
    | inl kept_none ↦ ground (arith, option_beq_iff string_eq c.hook.active_slot (some slot))
    | inr (l, kept) ↦ ground (
      arith,
      option_beq_iff string_eq c.hook.active_slot (some slot),
      s.selected l kept,
      one l kept,
    )
  ]
  acquire_keeps slot (LockAcquireResult.conflict m message) one id a =
      elim (Option-cases c.hook.current_lock) [
        | inl kept_none ↦ ground (arith, option_beq_iff string_eq c.hook.active_slot (some slot))
        | inr (l, kept) ↦ ground (
          arith,
          option_beq_iff string_eq c.hook.active_slot (some slot),
          s.selected l kept,
          one l kept,
        )
      ]

  acquire-IsSound :
      (slot : String) (result : LockAcquireResult)
      → (answer_lock result).slot_datetime ≡ slot
      → ((l : TeeSheetLockResponse)
          → c.hook.current_lock ≡ some l
          → l.slot_datetime ≡ slot
          → l.id ≡ (answer_lock result).id)
      → IsSound (record {
        hook = acquire_success user slot result c.hook;
        granted = grant result c.granted;
      })
  unfolding acquire_success
  acquire-IsSound slot (LockAcquireResult.lock m) at_slot one = record {
    shown = λ l e. ground (arith, s.shown l);
    selected = λ l e.
        ground (arith, s.selected l, option_beq_iff string_eq c.hook.active_slot (some slot));
    none_lost = (
      ground (arith, str_eq_refl m.id),
      accounted_mono c.hook (acquire_success user slot (LockAcquireResult.lock m) c.hook) c.granted
          (acquire_keeps slot (LockAcquireResult.lock m) one) s.none_lost,
    );
  }
  acquire-IsSound slot (LockAcquireResult.conflict m message) at_slot one = record {
    shown = λ l e. ground (arith, s.shown l);
    selected = λ l e.
        ground (arith, s.selected l, option_beq_iff string_eq c.hook.active_slot (some slot));
    none_lost =
        accounted_mono c.hook
          (acquire_success user slot (LockAcquireResult.conflict m message) c.hook) c.granted
          (acquire_keeps slot (LockAcquireResult.conflict m message) one) s.none_lost;
  }

  Step-IsSound : {d : Config} → Step user get_time c d → IsSound d
  unfolding settle acquire_error renew_error
  Step-IsSound (selects slot course) = select-IsSound slot course
  Step-IsSound settles = record {
    shown = λ l e. cc;
    selected = s.selected;
    none_lost = s.none_lost;
  }
  Step-IsSound (acquires slot result at_slot one) = acquire-IsSound slot result at_slot one
  Step-IsSound (acquire_fails slot message) = record {
    shown = λ l e. ground (arith, s.shown l);
    selected = λ l e. ground (arith, s.selected l);
    none_lost =
        accounted_mono c.hook (acquire_error slot message c.hook) c.granted (λ id a. ground arith)
          s.none_lost;
  }
  Step-IsSound (ticks now) = tick-IsSound now
  Step-IsSound (renews l l' e i k) = renew-IsSound l l' e i k
  Step-IsSound renew_fails = record {
    shown = λ l e. cc;
    selected = s.selected;
    none_lost = s.none_lost;
  }

-- In a run in which renewals are answered for the lock that is still held, the backend has one lock
-- at a time for a slot, and each callback runs, the hook shows a lock as its own only while it keeps
-- it, keeps only a lock of the selected slot, and has released every lock that it was granted and
-- does not keep.
pub Reach-IsSound :
    (user : Option String) (get_time : String → Option ℕ) {c : Config}
    → Reach user get_time start c
    → IsSound c
Reach-IsSound user get_time here = record {
  shown = λ l e. cc;
  selected = λ l e. cc;
  none_lost = tt;
}
Reach-IsSound user get_time (next {d} r st) =
    Step-IsSound user get_time d (Reach-IsSound user get_time r) st

-- So on unmount, behind such a run, every granted lock has been released.
pub unmount-released :
    (user : Option String) (get_time : String → Option ℕ) {c : Config}
    → Reach user get_time start c
    → All (λ id. any (λ r. r == id) (unmount c.hook).released ≡ true) c.granted
unfolding unmount
unmount-released user get_time {c} r = go c.granted (Reach-IsSound user get_time r).none_lost
  where
    go :
        (ids : List String)
        → All (λ id. accounted c.hook id ≡ true) ids
        → All (λ id. any (λ r. r == id) (unmount c.hook).released ≡ true) ids
    go [] a = tt
    go (id ∷ ids) a = (ground arith, go ids a.1)
