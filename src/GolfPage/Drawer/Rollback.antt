-- ===== src/GolfPage/Drawer/Rollback.antt =====
-- The cached day behind a request that fails.
use greenlink.Prelude.{
  ◌≡◌, refl, sym, ap, ◌∙◌, String, false, Bool-cases, Option-cases, inl, inr, Option, none, some,
  ◌==◌,
}
use greenlink.Types.Booking.{MutationDecision, BookingLifecycleMutationResult, BookingMoveResult}
use greenlink.Types.TeeSheet.{TeeSheetDayResponse}
use greenlink.Sheet.Status.{Action}
use greenlink.Sheet.Transition.{optimistically_transition_booking}
use greenlink.BookingMove.{LaneSlot, optimistically_move_booking}
use greenlink.Cache.{DayKey, QueryClient, day_key_eq, day_key_beq_iff}
use greenlink.GolfPage.Drawer.{DrawerState}
use greenlink.GolfPage.Drawer.Requests.{
  put_day, update_day, on_lifecycle_mutate, rollback_lifecycle_context, handle_lifecycle_error,
  lifecycle_succeeded, handle_lifecycle_blocked, on_move_mutate, move_succeeded, move_failed,
}

module _ (Q : QueryClient) where
  open Q use {Cache, get, set, get-set}

  get-put_day-none :
      (j k : DayKey) (o : Option TeeSheetDayResponse) (c : Cache)
      → (j == k) ≡ false
      → get j (put_day Q k o c) ≡ get j c
  get-put_day-none j k none c h = refl
  get-put_day-none j k (some d) c h = rw (get-set k j d c, h) refl

  -- Putting a day back after a change leaves every key as it was.
  restored :
      (k j : DayKey) (change : Option TeeSheetDayResponse → Option TeeSheetDayResponse) (c : Cache)
      → change none ≡ none
      → get j (put_day Q k (get k c) (put_day Q k (change (get k c)) c)) ≡ get j c
  restored k j change c h = elim (Option-cases (get k c)) [
    | inl absent ↦ rw (absent, h) refl
    | inr (d, present) ↦ elim (Bool-cases (j == k)) [
      | inl same ↦
          rw (present, get-set k j d (put_day Q k (change (some d)) c), same)
            (sym present ∙ ap (λ i. get i c) (sym ((day_key_beq_iff j k).0 same)))
      | inr other ↦
          rw (present, get-set k j d (put_day Q k (change (some d)) c), other)
            (get-put_day-none j k (change (some d)) c other)
    ]
  ]

  restored_at :
      (o : Option DayKey) (j : DayKey)
      (change : Option TeeSheetDayResponse → Option TeeSheetDayResponse) (c : Cache)
      → change none ≡ none
      → (let kept = update_day Q o change c in
          get j (rollback_lifecycle_context Q o kept.0 kept.1) ≡ get j c)
  unfolding rollback_lifecycle_context
  restored_at none j change c h = refl
  restored_at (some k) j change c h = restored k j change c h

  -- A check-in, no-show, completion or cancellation that the backend refuses, or whose request
  -- fails, and a move that it refuses or whose request fails, leave the cached day of every key as
  -- it was before, where the page still shows the day that it showed at the click.
  pub failed-restored :
      (key : Option DayKey) (j : DayKey) (action : Action) (id : String) (target : LaneSlot)
      (participant e : Option String) (s : DrawerState) (c : Cache)
      (r : BookingLifecycleMutationResult) (m : BookingMoveResult)
      → r.decision ≡ MutationDecision.blocked
      → m.decision ≡ MutationDecision.blocked
      → (let kept = on_lifecycle_mutate Q key action id c in
          let moved = on_move_mutate Q key id target participant c in
          (get j (lifecycle_succeeded Q key action id r kept.0 (s, kept.1)).1 ≡ get j c)
          × (get j (handle_lifecycle_error Q key id e kept.0 (s, kept.1)).1 ≡ get j c)
          × (get j (move_succeeded Q key target m moved.0 (s, moved.1)).1 ≡ get j c)
          × (get j (move_failed Q key e moved.0 (s, moved.1)).1 ≡ get j c))
  unfolding on_lifecycle_mutate on_move_mutate lifecycle_succeeded handle_lifecycle_blocked
      handle_lifecycle_error move_succeeded move_failed optimistically_transition_booking
      optimistically_move_booking
  failed-restored key j action id target participant e s c r m rb mb =
      let transition = restored_at key j (optimistically_transition_booking id action) c refl in
      let move =
        restored_at key j (λ day. optimistically_move_booking id participant day target) c refl in
      (rw rb transition, transition, rw mb move, move)

  -- Whatever day the page shows when the request fails, the rollback puts the day of the click
  -- under the key of that day: where the page has gone on, under the key of the wrong day.
  pub rollback_elsewhere :
      (k other : DayKey) (action : Action) (id : String) (e : Option String) (s : DrawerState)
      (day : TeeSheetDayResponse) (c : Cache)
      → get k c ≡ some day
      → (let kept = on_lifecycle_mutate Q (some k) action id c in
          get other (handle_lifecycle_error Q (some other) id e kept.0 (s, kept.1)).1 ≡ some day)
  unfolding on_lifecycle_mutate handle_lifecycle_error rollback_lifecycle_context
  rollback_elsewhere k other action id e s day c present =
      rw
        (
          present,
          get-set other other day
              (put_day Q k (optimistically_transition_booking id action (some day)) c),
          (day_key_beq_iff other other).1 refl,
        )
        refl
