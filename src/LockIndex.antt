-- ===== src/LockIndex.antt =====
-- frontend/src/features/tee-sheet/lock-utils.ts: the polled locks of other operators, by slot.
-- A JavaScript `Map` is an association list in which `set` replaces the value of a key.
use greenlink.Prelude.{
  String, ◌≡◌, refl, Bool, false, Option, none, some, List, [], ◌∷◌, arith, ◌==◌, string_eq,
  if◌then◌else◌, eq_iff, option_eq,
}
use greenlink.Types.Lock.{TeeSheetLockResponse}

abbrev pub LockMap : Type 0
LockMap = List (String × TeeSheetLockResponse)

unfoldable pub get : String → LockMap → Option TeeSheetLockResponse
get key [] = none
get key ((k, l) ∷ m) = if k == key then some l else get key m

unfoldable pub set : String → TeeSheetLockResponse → LockMap → LockMap
set key l [] = (key, l) ∷ []
set key l ((k, old) ∷ m) = if k == key then (k, l) ∷ m else (k, old) ∷ set key l m

pub get-set :
    (key k : String) (l : TeeSheetLockResponse) (m : LockMap)
    → get k (set key l m) ≡ (if key == k then some l else get k m)
unfolding get set
get-set key k l [] = refl
get-set key k l ((j, old) ∷ m) =
    ground (arith, eq_iff key k, eq_iff j key, eq_iff j k, get-set key k l m)

-- The lock is the current user's own.
abbrev pub is_own : Option String → TeeSheetLockResponse → Bool
is_own none l = false
is_own (some user) l = l.holder_user_id == user

-- The loop over the locks, from the map built so far.
build_from : Option String → LockMap → List TeeSheetLockResponse → LockMap
build_from user map [] = map
build_from user map (l ∷ ls) =
    build_from user (if is_own user l then map else set l.slot_datetime l map) ls

unfoldable pub build_locks_by_slot : List TeeSheetLockResponse → Option String → LockMap
unfolding build_from set
build_locks_by_slot locks current_user_id = build_from current_user_id [] locks

-- The last lock of another operator on the slot, or what stands behind.
abbrev pub last_foreign :
    Option String
    → String
    → List TeeSheetLockResponse
    → Option TeeSheetLockResponse
    → Option TeeSheetLockResponse
last_foreign user slot [] found = found
last_foreign user slot (l ∷ ls) found =
    last_foreign user slot ls
      (if is_own user l then found else (if l.slot_datetime == slot then some l else found))

build_from-last :
    (user : Option String) (slot : String) (m : LockMap) (ls : List TeeSheetLockResponse)
    → get slot (build_from user m ls) ≡ last_foreign user slot ls (get slot m)
unfolding build_from
build_from-last user slot m [] = refl
build_from-last user slot m (l ∷ ls) = ground (
  arith,
  build_from-last user slot m ls,
  build_from-last user slot (set l.slot_datetime l m) ls,
  get-set l.slot_datetime slot l m,
)

-- The index holds for each slot the last polled lock on it that is not the user's own.
pub get-build_locks_by_slot :
    (locks : List TeeSheetLockResponse) (user : Option String) (slot : String)
    → get slot (build_locks_by_slot locks user) ≡ last_foreign user slot locks none
unfolding build_locks_by_slot get
get-build_locks_by_slot locks user slot = build_from-last user slot [] locks
