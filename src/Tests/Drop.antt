-- ===== src/Tests/Drop.antt =====
-- Drops between two slots of the morning.
use greenlink.Prelude.{ℕ, String, ◌≡◌, refl, true, false, some, All, if◌then◌else◌}
use greenlink.Types.Booking.{reserved}
use greenlink.Move.{plain}
use greenlink.Row.{PlayerCellSpec, player, target_row_has_intermediate_space}
use greenlink.Swap.{
  SwapInput, first_pending, rejected_target_row_full, initial, initiate, on_success, on_failure,
  move_a, move_b,
}
use greenlink.Swap.Protocol.{Config, start_config, begin, success, Reach, here, next}
use greenlink.Drop.{
  participant, drag_of, CellOccupant, drop_on_cell, handle_drag_start, cell_is_moveable,
}
use greenlink.Drop.Routes.{IsRouted, drop_on_cell-IsRouted}
use greenlink.Drop.Exchange.{Exchanges, drop-Exchanges, second_swap_forgets}
use greenlink.Tests.Data.{small_slot, busy_slot, lane, day_of, swap_ben_cas, moved}

abbrev cell_of : String → String → String → PlayerCellSpec
cell_of booking id name = player (record {
  name = name;
  cart = true;
  booking_id = booking;
  participant_id = some id;
  party_size = 2;
  booking_status = reserved;
})

abbrev ben : CellOccupant
ben = record { booking_id = "b1"; participant_id = "p2"; display_name = "Ben"; party_size = 2 }

drop_on_cell-IsRouted_example :
    All
      (IsRouted {Amount = ℕ}
        (some (day_of "c1"))
        busy_slot
        (cell_of "b2" "p3" "Cas")
        (participant (drag_of small_slot 1 ben)))
      (drop_on_cell
        (some "c1")
        (some (day_of "c1"))
        busy_slot
        (cell_of "b2" "p3" "Cas")
        (participant (drag_of small_slot 1 ben)))
drop_on_cell-IsRouted_example =
    drop_on_cell-IsRouted (some "c1") (some (day_of "c1")) busy_slot (cell_of "b2" "p3" "Cas")
      (participant (drag_of small_slot 1 ben))

drop-Exchanges_example :
    All
      (Exchanges {Amount = ℕ} small_slot
        (cell_of "b1" "p2" "Ben")
        busy_slot
        (cell_of "b2" "p3" "Cas"))
      (drop_on_cell
        (some "c1")
        (some (day_of "c1"))
        busy_slot
        (cell_of "b2" "p3" "Cas")
        (participant (drag_of small_slot 1 ben)))
unfolding handle_drag_start cell_is_moveable
drop-Exchanges_example =
    drop-Exchanges ℕ (some "c1") (some (day_of "c1")) small_slot 1 (cell_of "b1" "p2" "Ben")
      busy_slot (cell_of "b2" "p3" "Cas") (drag_of small_slot 1 ben) refl

-- The first move of a swap has been made.
abbrev halfway : Config
halfway = record {
  hook = on_success (move_a swap_ben_cas) moved (initiate swap_ben_cas lane initial);
  a_moved = true;
  b_moved = false;
  overlapped = false;
}

halfway_reached : Reach start_config halfway
unfolding initiate target_row_has_intermediate_space
halfway_reached =
    next (next here (begin swap_ben_cas lane)) (success (move_a swap_ben_cas) moved refl)

abbrev swap_back : SwapInput
swap_back = record {
  participant_a = swap_ben_cas.participant_b;
  participant_b = swap_ben_cas.participant_a;
}

second_swap_forgets_example :
    ((on_failure
        (move_b swap_ben_cas)
        (plain "conflict")
        (initiate swap_back lane halfway.hook)).state
      ≡ (if target_row_has_intermediate_space lane "t1"
          then first_pending swap_back
          else rejected_target_row_full swap_back))
    × (true ≡ true)
    × (false ≡ false)
unfolding on_success
second_swap_forgets_example =
    second_swap_forgets halfway swap_ben_cas swap_back lane (plain "conflict") halfway_reached refl
      refl
