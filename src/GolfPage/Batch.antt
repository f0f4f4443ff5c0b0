-- ===== src/GolfPage/Batch.antt =====
-- frontend/src/pages/admin-golf-tee-sheet-page.tsx: the check-in of all bookings of a time, and the
-- no-show of all that are late.
pub mod Counted
use greenlink.Prelude.{
  ℕ, ◌+◌, String, Bool, true, false, ◌&&◌, ◌||◌, Option, none, some, List, [], ◌∷◌, ◌++◌, map, not,
  if◌then◌else◌, ◌==◌, string_eq, nat_eq, any, length, ltb,
}
use greenlink.Prelude.Int.{ℤ}
use greenlink.Prelude.Text.{◌++ₛ◌, show}
use greenlink.Types.Booking.{MutationDecision, allowed, blocked, BookingLifecycleMutationResult}
use greenlink.Types.TeeSheet.{TeeSheetBookingView}
use greenlink.Sheet.Status.{
  Action, check_in, no_show, at_risk, next_action_eq, derive_booking_next_action, can_quick_action,
}
use greenlink.Move.{Outcome, ok, err, is_allowed}
use greenlink.Filters.{ViewFilter, no_shows}
use greenlink.BookingMove.{LaneSlot}
use greenlink.GolfPage.Slots.{Bucket}
use greenlink.GolfPage.Feedback.{Notice, Tone, success, info, error, DrawerFeedback, Copy, copy}
use greenlink.GolfPage.Drawer.Requests.{as_message, first_message}

abbrev slot_bookings : List LaneSlot → List TeeSheetBookingView
slot_bookings [] = []
slot_bookings (slot ∷ slots) = slot.slot.bookings ++ slot_bookings slots

abbrev pub bucket_bookings : List Bucket → List TeeSheetBookingView
bucket_bookings [] = []
bucket_bookings (bucket ∷ buckets) = slot_bookings bucket.slots ++ bucket_bookings buckets

abbrev pub seen_id : String → List String → Bool
seen_id id seen = any (λ i. i == id) seen

module _ (date_parse : String → Option ℤ) (reference : Option String) where
  abbrev pub qualifies : TeeSheetBookingView → Bool
  qualifies booking =
      derive_booking_next_action date_parse booking reference == at_risk
      && can_quick_action booking no_show

  -- The filter of `batchNoShowBookings`, with the set `seen`.
  pub unseen : List String → List TeeSheetBookingView → List TeeSheetBookingView
  unseen seen [] = []
  unseen seen (booking ∷ bookings) =
      let skipped = unseen seen bookings in
      let taken = booking ∷ unseen (booking.id ∷ seen) bookings in
      if seen_id booking.id seen then skipped else if qualifies booking then taken else skipped

  unfoldable pub batch_no_show_bookings : ViewFilter → List Bucket → List TeeSheetBookingView
  unfolding unseen
  batch_no_show_bookings view_filter filtered_buckets = elim view_filter [
    | no_shows ↦ unseen [] (bucket_bookings filtered_buckets)
    | _ ↦ []
  ]

-- The settled promise of one request; the error of a rejected one is what `asMessage` reads.
abbrev pub Settled : Type 0
Settled = Outcome (Option String) BookingLifecycleMutationResult

abbrev failure_of : Action → Settled → List String
failure_of action (err reason) = as_message reason ∷ []
failure_of action (ok result) =
    if is_allowed result.decision
    then []
    else first_message (copy action).blocked result.failures ∷ []

unfoldable pub failures_of : Action → List Settled → List String
failures_of action [] = []
failures_of action (r ∷ settled) = failure_of action r ++ failures_of action settled

abbrev is_settled : Bool → Settled → Bool
is_settled applied (err reason) = false
is_settled applied (ok result) =
    is_allowed result.decision
    && (if applied then result.transition_applied else not result.transition_applied)

abbrev count_settled : Bool → List Settled → ℕ
count_settled applied [] = 0
count_settled applied (r ∷ settled) =
    (if is_settled applied r then 1 else 0) + count_settled applied settled

abbrev pub successes : List Settled → ℕ
successes settled = count_settled true settled

abbrev pub already_processed : List Settled → ℕ
already_processed settled = count_settled false settled

abbrev plural : ℕ → String
plural n = if n == 1 then "" else "s"

abbrev check_in_notice : List Settled → List String → Notice
check_in_notice settled (failure ∷ failures) = record {
  tone = error;
  message =
      "Check In All completed "
      ++ₛ show (successes settled + already_processed settled)
      ++ₛ "/"
      ++ₛ show (length settled)
      ++ₛ ". "
      ++ₛ failure;
}
check_in_notice settled [] =
    if ltb 0 (successes settled)
    then record {
      tone = success;
      message =
          "Checked in "
          ++ₛ show (successes settled)
          ++ₛ " booking"
          ++ₛ plural (successes settled)
          ++ₛ " for this time bucket.";
    }
    else record {
      tone = info;
      message = "All reserved bookings in this time bucket were already checked in.";
    }

abbrev pub no_show_notice : List Settled → List String → Notice
no_show_notice settled (failure ∷ failures) = record {
  tone = error;
  message =
      "Batch No-Show finished. "
      ++ₛ show (successes settled)
      ++ₛ " updated, "
      ++ₛ show (length (failure ∷ failures))
      ++ₛ " failed, "
      ++ₛ show (already_processed settled)
      ++ₛ " already processed. "
      ++ₛ failure;
}
no_show_notice settled [] = record {
  tone = if ltb 0 (successes settled) then success else info;
  message =
      "Batch No-Show finished. "
      ++ₛ show (successes settled)
      ++ₛ " updated, 0 failed, "
      ++ₛ show (already_processed settled)
      ++ₛ " already processed.";
}

-- What one of the two handlers does: its requests in order, its notice, and whether the dialog that
-- confirms the no-shows stays open.
pub record BatchRun : Type 0 where
  pub requested : List String
  pub notice : Option Notice
  pub confirm_open : Bool

abbrev pub nothing_done : Bool → BatchRun
nothing_done confirm_open = record { requested = []; notice = none; confirm_open = confirm_open }

module _ (has_session : Bool) (answer : String → Settled) where
  abbrev pub answers : List TeeSheetBookingView → List Settled
  answers bookings = map (λ b. answer b.id) bookings

  -- `reserved` is reservedBookingsByBucket.get(bucketSlotDatetime) ?? []
  unfoldable pub handle_check_in_all : Bool → List TeeSheetBookingView → BatchRun
  handle_check_in_all confirm_open reserved =
      if not has_session || not (ltb 0 (length reserved))
      then nothing_done confirm_open
      else record {
        requested = map (λ b. b.id) reserved;
        notice =
            some (check_in_notice (answers reserved) (failures_of check_in (answers reserved)));
        confirm_open = confirm_open;
      }

  unfoldable pub handle_batch_no_show : Bool → List TeeSheetBookingView → BatchRun
  handle_batch_no_show confirm_open bookings =
      if not has_session
      then nothing_done confirm_open
      else if not (ltb 0 (length bookings))
      then record {
        requested = [];
        notice = some (record {
          tone = info;
          message = "No late / at-risk bookings are currently eligible for batch no-show.";
        });
        confirm_open = false;
      }
      else record {
        requested = map (λ b. b.id) bookings;
        notice = some (no_show_notice (answers bookings) (failures_of no_show (answers bookings)));
        confirm_open = false;
      }
