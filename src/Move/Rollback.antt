-- ===== src/Move/Rollback.antt =====
-- The cache behind an optimistic move, and behind its rollback.
use greenlink.Prelude.{
  String, ◌≡◌, refl, Option, none, some, arith, ◌==◌, find?, if◌then◌else◌, Option-cases, inl, inr,
}
use greenlink.Prelude.Text.{◌++ₛ◌}
use greenlink.Types.TeeSheet.{BookingRuleAppliesTo, TeeSheetDayResponse}
use greenlink.Cache.{DayKey, QueryClient, day_key_eq, day_key_beq_iff}
use greenlink.Move.{
  MoveParticipantVariables, matches_day_key, patch_day_with_move, on_mutate, on_error, on_found,
  move_optimistic_booking_id_prefix,
}

module _ (client : QueryClient) where
  open client use {Cache, get, set, keys, get-set}

  -- `map` on the data of a query that may be missing
  abbrev pub patched :
      Option TeeSheetDayResponse → MoveParticipantVariables → String → Option TeeSheetDayResponse
  patched none v id = none
  patched (some day) v id = some (patch_day_with_move day v id)

  rollback_found :
      (found : Option DayKey) (fallback : DayKey) (v : MoveParticipantVariables) (id : String)
      (cache : Cache) (k : DayKey)
      → (let (cache', context) = on_found client found fallback v id cache in
          get k (on_error client context cache'))
        ≡ get k cache
  unfolding on_error
  rollback_found none fallback v id cache k = refl
  rollback_found (some key) fallback v id cache k = elim (Option-cases (get key cache)) [
    | inl missing ↦ ground arith
    | inr (day, there) ↦ ground (
      arith,
      get-set key k day (set key (patch_day_with_move day v id) cache),
      get-set key k (patch_day_with_move day v id) cache,
      day_key_beq_iff k key,
    )
  ]

  -- A move that fails leaves every cached day as it was before the optimistic patch.
  pub get-on_error-on_mutate :
      (club : Option String) (date : String) (membership : BookingRuleAppliesTo)
      (tee : Option String) (now : String) (v : MoveParticipantVariables) (cache : Cache)
      (k : DayKey)
      → get k (
          on_error client
            (on_mutate client club date membership tee now v cache).1
            (on_mutate client club date membership tee now v cache).0)
        ≡ get k cache
  unfolding on_mutate
  get-on_error-on_mutate club date membership tee now v cache k =
      rollback_found (find? (matches_day_key date membership) (keys cache)) _ v _ cache k

  -- The optimistic move patches the day of the first query, in the order of the cache, whose date
  -- and membership type are the selected ones, whatever its club and its course, and no other.
  pub get-on_mutate :
      (club : Option String) (date : String) (membership : BookingRuleAppliesTo)
      (tee : Option String) (now : String) (v : MoveParticipantVariables) (cache : Cache)
      (key k : DayKey)
      → find? (matches_day_key date membership) (keys cache) ≡ some key
      → get k (on_mutate client club date membership tee now v cache).0 ≡ (
          if k == key
          then patched (get key cache) v (move_optimistic_booking_id_prefix ++ₛ now)
          else get k cache)
  unfolding on_mutate
  get-on_mutate club date membership tee now v cache key k found =
      elim (Option-cases (get key cache)) [
        | inl missing ↦ ground (arith, day_key_beq_iff k key)
        | inr (day, there) ↦ ground (
          arith,
          get-set key k (patch_day_with_move day v (move_optimistic_booking_id_prefix ++ₛ now))
              cache,
          day_key_beq_iff k key,
        )
      ]
