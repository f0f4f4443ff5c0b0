-- ===== src/Tests/Desk.antt =====
-- The desk's tee sheet on the morning of Tests.Data.
use greenlink.Prelude.{
  ◌⊎◌, ◌≡◌, ◌≤◌, ◌+◌, refl, arith, String, true, false, ◌&&◌, none, some, List, [], ◌∷◌, map,
  filter, any, All, length, ◌==◌, string_eq,
}
use greenlink.Prelude.Int.{ℤ, pos}
use greenlink.Types.Booking.{member, guest, staff, MutationDecision, BookingLifecycleMutationResult}
use greenlink.Types.TeeSheet.{BookingRuleAppliesTo, TeeSheetSlotView}
use greenlink.Types.Results.{BookingDecision, BookingWriteResult}
use greenlink.Sheet.Status.{check_in}
use greenlink.Move.{ok}
use greenlink.Filters.{no_shows}
use greenlink.Cache.{DayKey}
use greenlink.Cache.Memory.{memory, Days, lookup}
use greenlink.BookingMove.{LaneSlot}
use greenlink.GolfPage.Party.{
  to_guest_name, to_person_id, initial_drafts, primary_type, applies_to_of, SheetContext,
  create_payload, update_payload,
}
use greenlink.GolfPage.Party.Kept.{PartyEdit, update, add, remove, run, fresh, IsSent, run-IsSent}
use greenlink.GolfPage.Slots.{Bucket}
use greenlink.GolfPage.Drawer.{
  DrawerState, new_drawer, open_create, close, toggle_booking_expansion,
  inline_expanded_booking_context, manage, lead_context,
}
use greenlink.GolfPage.Drawer.Requests.{
  update_succeeded, create_succeeded, on_lifecycle_mutate, on_move_mutate, lifecycle_succeeded,
  handle_lifecycle_error, move_succeeded, move_failed,
}
use greenlink.GolfPage.Drawer.Open.{late_update_hides}
use greenlink.GolfPage.Drawer.Rollback.{failed-restored, rollback_elsewhere}
use greenlink.GolfPage.Batch.{
  Settled, answers, bucket_bookings, qualifies, batch_no_show_bookings, handle_batch_no_show,
}
use greenlink.GolfPage.Feedback.{Notice}
use greenlink.GolfPage.Batch.Counted
use greenlink.GolfPage.Batch.Counted.{batch_no_show_bookings_lem}
use greenlink.GolfPage.Focus.{focus_slot}
use greenlink.GolfPage.Focus.First.{occurs, seats, focus_slot-Kept}
use greenlink.Tests.Data.{busy_slot, empty_slot, day_of, clock, refused}

abbrev party_edits : List PartyEdit
party_edits =
    add "k1" guest
    ∷ update "k1" (to_guest_name " Eve ")
    ∷ add "k2" staff
    ∷ update "primary" (to_person_id (some "p1"))
    ∷ remove "primary"
    ∷ remove "k2"
    ∷ []

abbrev lane_of : TeeSheetSlotView → LaneSlot
lane_of slot = record {
  color_code = none;
  lane_label = "1st Tee";
  row_key = "main";
  row_label = "1st Tee";
  slot = slot;
  start_lane = none;
  tee_id = none;
}

abbrev sheet : SheetContext
sheet = record {
  course_id = "c1";
  holes = some 18;
  interval_minutes = some 8;
  reference_datetime = none;
}

run-IsSent_example :
    (let drafts = run party_edits (initial_drafts BookingRuleAppliesTo.member) in
      let sent = create_payload sheet (lane_of empty_slot) false true drafts in
      (length sent.participants ≤ 4)
      × (map (λ p. p.participant_type) (filter (λ p. p.is_primary) sent.participants) ≡ member ∷ [])
      × (sent.applies_to ≡ some (applies_to_of member))
      × All IsSent sent.participants
      × ((update_payload sheet false true drafts).participants ≡ sent.participants)
      × ((update_payload sheet false true drafts).applies_to ≡ sent.applies_to))
unfolding primary_type initial_drafts
run-IsSent_example =
    run-IsSent party_edits sheet (lane_of empty_slot) false true (fresh BookingRuleAppliesTo.member)

abbrev saved : BookingWriteResult
saved = record {
  decision = BookingDecision.allowed;
  booking = none;
  availability = none;
  failures = [];
}

abbrev made : DrawerState
made = create_succeeded saved (open_create (lane_of empty_slot) new_drawer)

late_update_hides_example :
    (let late = update_succeeded saved (close new_drawer) in
      (late.drawer_mode ≡ some manage)
      × (late.selected_slot_key ≡ none)
      × (inline_expanded_booking_context (
            toggle_booking_expansion
              (lane_of busy_slot)
              (lead_context (lane_of busy_slot) "b1")
              late)
          ≡ none))
late_update_hides_example =
    late_update_hides saved new_drawer (lane_of busy_slot) (lead_context (lane_of busy_slot) "b1")
      refl

abbrev shown_key : String → DayKey
shown_key day = record {
  club_id = "club";
  course_id = "c1";
  day = day;
  membership_type = BookingRuleAppliesTo.member;
  tee_id = "all-tees";
  interval_minutes = none;
}

abbrev cached : Days
cached = (shown_key "2026-05-14", day_of "c1") ∷ []

abbrev no_check_in : BookingLifecycleMutationResult
no_check_in = record {
  booking_id = "b1";
  decision = MutationDecision.blocked;
  transition_applied = false;
  booking = none;
  failures = [];
}

failed-restored_example :
    (let key = some (shown_key "2026-05-14") in
      let kept = on_lifecycle_mutate memory key check_in "b1" cached in
      let moved = on_move_mutate memory key "b1" (lane_of empty_slot) (some "p2") cached in
      let read = lookup (shown_key "2026-05-14") in
      (read (lifecycle_succeeded memory key check_in "b1" no_check_in kept.0 (new_drawer, kept.1)).1
        ≡ read cached)
      × (read (handle_lifecycle_error memory key "b1" none kept.0 (new_drawer, kept.1)).1
          ≡ read cached)
      × (read
            (move_succeeded memory key (lane_of empty_slot) refused moved.0 (new_drawer, moved.1)).1
          ≡ read cached)
      × (read (move_failed memory key none moved.0 (new_drawer, moved.1)).1 ≡ read cached))
failed-restored_example =
    failed-restored memory (some (shown_key "2026-05-14")) (shown_key "2026-05-14") check_in "b1"
      (lane_of empty_slot) (some "p2") none new_drawer cached no_check_in refused refl refl

rollback_elsewhere_example :
    (let kept = on_lifecycle_mutate memory (some (shown_key "2026-05-14")) check_in "b1" cached in
      lookup
        (shown_key "2026-05-15")
        (handle_lifecycle_error memory
          (some (shown_key "2026-05-15"))
          "b1"
          none
          kept.0
          (new_drawer, kept.1)).1
      ≡ some (day_of "c1"))
rollback_elsewhere_example =
    rollback_elsewhere memory (shown_key "2026-05-14") (shown_key "2026-05-15") check_in "b1" none
      new_drawer (day_of "c1") cached refl

abbrev no_order : String → String → ℤ
no_order a b = pos 0

abbrev late : List Bucket
late =
    record {
      local_time = "06:38:00";
      slot_datetime = "t2";
      slots = lane_of busy_slot ∷ lane_of busy_slot ∷ [];
    }
    ∷ []

abbrev refuse : String → Settled
refuse id = ok no_check_in

batch_no_show_bookings_lem_example :
    (let batch = batch_no_show_bookings clock (some "t3") no_shows late in
      let settled = answers true refuse batch in
      ((handle_batch_no_show true refuse true batch).requested ≡ map (λ b. b.id) batch)
      × (Counted.occurs "b2" batch ≤ 1)
      × (any (λ b. b.id == "b2") batch
          ≡ any (λ b. b.id == "b2" && qualifies clock (some "t3") b) (bucket_bookings late))
      × All (λ b. qualifies clock (some "t3") b ≡ true) batch
      × ((batch ≡ [])
          ⊎ ((n : Notice) × ((handle_batch_no_show true refuse true batch).notice ≡ some n)
              × Counted.IsReport settled n))
      × (Counted.tally Counted.updated settled
            + Counted.tally Counted.failed settled
            + Counted.tally Counted.processed settled
          ≡ length batch))
batch_no_show_bookings_lem_example =
    batch_no_show_bookings_lem clock (some "t3") late refuse true "b2"

focus_slot-Kept_example :
    (let shown = focus_slot (some (lead_context (lane_of busy_slot) "b3")) (lane_of busy_slot) in
      (occurs "b2" shown.slot.bookings ≡ 1)
      × (seats "b2" "Cas" shown.slot.bookings ≡ 1)
      × (shown.start_lane ≡ none)
      × (shown.slot.slot_datetime ≡ "t2"))
focus_slot-Kept_example =
    focus_slot-Kept (lead_context (lane_of busy_slot) "b3") (lane_of busy_slot) "b2" "Cas"
      (omega arith)
