-- ===== src/Row/Cells.antt =====
-- The loops that build the cells of a row, against a direct description.
use mathlib.Core.List.{append-nil, append_assoc}
use greenlink.Prelude.{
  ℕ, zero, suc, ◌+◌, ◌-◌, ◌≤◌, ◌<◌, min, String, ◌≡◌, ◌↔◌, refl, sym, ap, ◌∙◌, true, false, some,
  List, [], ◌∷◌, ◌++◌, map, arith, leb, length, length-append, length-map, length-tabulate,
  length-replicate, any, any-append, find?, take, take-nil, take-append, length-take, replicate,
  sum, Bool-cases, inl, inr, ◌==◌, string_eq, ltb,
}
use greenlink.Types.Booking.{BookingParticipantSummary}
use greenlink.Types.TeeSheet.{TeeSheetBookingView, TeeSheetSlotView, TeeSheetRow}
use greenlink.Sheet.Occupancy.{slot_capacity, booking_player_count, slot_player_count}
use greenlink.Sheet.Occupancy.Counts.{slot_capacity_bounds}
use greenlink.Row.{
  PlayerCellSpec, free, is_free, cell_participants, player_cell, fill_participants, fill_bookings,
  pad, build_player_cells, target_row_has_intermediate_space, slot_column_count,
}

-- The cells of all participants of the bookings, without a bound.
abbrev pub all_cells : List TeeSheetBookingView → List PlayerCellSpec
all_cells [] = []
all_cells (b ∷ bs) = map (player_cell b) (cell_participants b) ++ all_cells bs

fill_participants-take :
    (capacity : ℕ) (b : TeeSheetBookingView) (cells : List PlayerCellSpec)
    (ps : List BookingParticipantSummary)
    → fill_participants capacity b cells ps
      ≡ cells ++ take (capacity - length cells) (map (player_cell b) ps)
unfolding fill_participants
fill_participants-take capacity b cells [] =
    rw (take-nil {A = PlayerCellSpec} (capacity - length cells)) (sym (append-nil cells))
fill_participants-take capacity b cells (p ∷ ps) = elim (Bool-cases (leb capacity (length cells))) [
  | inl full ↦
      let none_left : capacity - length cells ≡ 0 = ground arith in
      rw (full, none_left) (sym (append-nil cells))
  | inr room ↦
      let one_more : capacity - length cells
          ≡ suc (capacity - length (cells ++ player_cell b p ∷ [])) =
        ground (arith, length-append cells (player_cell b p ∷ [])) in
      rw (room, one_more)
        (fill_participants-take capacity b (cells ++ player_cell b p ∷ []) ps
          ∙ append_assoc cells (player_cell b p ∷ []) _)
]

fill_bookings-take :
    (capacity : ℕ) (cells : List PlayerCellSpec) (bs : List TeeSheetBookingView)
    → length cells ≤ capacity
    → fill_bookings capacity cells bs ≡ cells ++ take (capacity - length cells) (all_cells bs)
unfolding fill_bookings
fill_bookings-take capacity cells [] h =
    rw (take-nil {A = PlayerCellSpec} (capacity - length cells)) (sym (append-nil cells))
fill_bookings-take capacity cells (b ∷ bs) h =
    let cells' = fill_participants capacity b cells (cell_participants b) in
    let now = map (player_cell b) (cell_participants b) in
    let k : ℕ = capacity - length cells in
    let filled : cells' ≡ cells ++ take k now =
      fill_participants-take capacity b cells (cell_participants b) in
    let size : length cells' ≡ length cells + min k (length now) =
      ap length filled
      ∙ length-append cells (take k now)
      ∙ ap (λ (m : ℕ). length cells + m) (length-take k now) in
    let left : capacity - length cells' ≡ k - length now = omega arith in
    let goal : fill_bookings capacity cells (b ∷ bs)
        ≡ cells' ++ take (capacity - length cells') (all_cells bs) =
      elim (Bool-cases (leb capacity (length cells'))) [
        | inl full ↦
            let none_left : capacity - length cells' ≡ 0 = ground arith in
            rw (full, none_left) (sym (append-nil cells'))
        | inr room ↦ rw room (fill_bookings-take capacity cells' bs (omega arith))
      ] in
    goal
    ∙ ap (λ n. cells' ++ take n (all_cells bs)) left
    ∙ ap (λ c. c ++ take (k - length now) (all_cells bs)) filled
    ∙ append_assoc cells (take k now) (take (k - length now) (all_cells bs))
    ∙ ap (λ c. cells ++ c) (sym (take-append k now (all_cells bs)))

pad-replicate :
    (rounds : ℕ) (cells : List PlayerCellSpec) → pad rounds cells ≡ cells ++ replicate rounds free
unfolding pad
pad-replicate zero cells = sym (append-nil cells)
pad-replicate (suc rounds) cells =
    pad-replicate rounds (cells ++ free ∷ [])
    ∙ append_assoc cells (free ∷ []) (replicate rounds free)

length-cell_participants :
    (b : TeeSheetBookingView) → length (cell_participants b) ≡ booking_player_count b
unfolding cell_participants booking_player_count
length-cell_participants b = elim (Bool-cases (ltb 0 (length b.participants))) [
  | inl listed ↦ rw listed
  | inr none_listed ↦ rw none_listed (length-tabulate _ 0 b.party_size)
]

length-all_cells :
    (bs : List TeeSheetBookingView) → length (all_cells bs) ≡ sum booking_player_count bs
length-all_cells [] = refl
length-all_cells (b ∷ bs) = omega (
  arith,
  length-append (map (player_cell b) (cell_participants b)) (all_cells bs),
  length-map (player_cell b) (cell_participants b),
  length-cell_participants b,
  length-all_cells bs,
)

-- The cells that the bookings of a slot fill.
abbrev pub filled_cells : TeeSheetSlotView → List PlayerCellSpec
filled_cells slot = take (slot_capacity slot) (all_cells slot.bookings)

-- The cells of a row are those of the first participants, as many as the capacity allows, and
-- behind them free cells up to the four columns of the row, whatever the capacity.
pub build_player_cells_lem :
    (slot : TeeSheetSlotView)
    → build_player_cells slot
      ≡ filled_cells slot ++ replicate (slot_column_count - length (filled_cells slot)) free
unfolding build_player_cells
build_player_cells_lem slot =
    let zero_off : slot_capacity slot - 0 ≡ slot_capacity slot = omega arith in
    let e : fill_bookings (slot_capacity slot) [] slot.bookings ≡ filled_cells slot =
      fill_bookings-take (slot_capacity slot) [] slot.bookings (omega arith)
      ∙ ap (λ n. take n (all_cells slot.bookings)) zero_off in
    rw e (pad-replicate _ (filled_cells slot))

length-filled_cells :
    (slot : TeeSheetSlotView)
    → length (filled_cells slot) ≡ min (slot_capacity slot) (slot_player_count slot)
unfolding slot_player_count
length-filled_cells slot =
    length-take (slot_capacity slot) (all_cells slot.bookings)
    ∙ ap (λ (n : ℕ). min (slot_capacity slot) n) (length-all_cells slot.bookings)

-- A row has four cells.
pub length-build_player_cells :
    (slot : TeeSheetSlotView) → length (build_player_cells slot) ≡ slot_column_count
length-build_player_cells slot = rw (build_player_cells_lem slot) (
    omega (
      arith,
      length-append (filled_cells slot) (replicate (4 - length (filled_cells slot)) free),
      length-replicate {A = PlayerCellSpec} (4 - length (filled_cells slot)) free,
      length-filled_cells slot,
      slot_capacity_bounds slot,
    ))

not-free-player_cells :
    (b : TeeSheetBookingView) (ps : List BookingParticipantSummary)
    → any is_free (map (player_cell b) ps) ≡ false
not-free-player_cells b [] = refl
not-free-player_cells b (p ∷ ps) = not-free-player_cells b ps

not-free-all_cells : (bs : List TeeSheetBookingView) → any is_free (all_cells bs) ≡ false
not-free-all_cells [] = refl
not-free-all_cells (b ∷ bs) = ground (
  arith,
  any-append is_free (map (player_cell b) (cell_participants b)) (all_cells bs),
  not-free-player_cells b (cell_participants b),
  not-free-all_cells bs,
)

not-any-take :
    (n : ℕ) (cells : List PlayerCellSpec)
    → any is_free cells ≡ false
    → any is_free (take n cells) ≡ false
not-any-take zero cells h = refl
not-any-take (suc n) [] h = refl
not-any-take (suc n) (c ∷ cells) h = ground (arith, not-any-take n cells)

any-replicate_free : (n : ℕ) → any is_free (replicate n free) ≡ ltb 0 n
any-replicate_free zero = refl
any-replicate_free (suc n) = ground arith

any_free-build_player_cells :
    (slot : TeeSheetSlotView)
    → any is_free (build_player_cells slot)
      ≡ ltb (min (slot_capacity slot) (slot_player_count slot)) slot_column_count
any_free-build_player_cells slot = rw (build_player_cells_lem slot) (
    ground (
      arith,
      any-append is_free (filled_cells slot) (replicate (4 - length (filled_cells slot)) free),
      not-any-take (slot_capacity slot) (all_cells slot.bookings)
          (not-free-all_cells slot.bookings),
      any-replicate_free (4 - length (filled_cells slot)),
      length-filled_cells slot,
    ))

-- The check before a swap finds space exactly if the slot shows fewer than four players.
pub intermediate_space_iff :
    (row : TeeSheetRow) (datetime : String) (slot : TeeSheetSlotView)
    → find? (λ s. s.slot_datetime == datetime) row.slots ≡ some slot
    → (target_row_has_intermediate_space row datetime ≡ true)
      ↔ (min (slot_capacity slot) (slot_player_count slot) < 4)
unfolding target_row_has_intermediate_space
intermediate_space_iff row datetime slot found =
    rw (found, target_row_has_intermediate_space) (ground (arith, any_free-build_player_cells slot))

-- So at a slot for fewer than four players it always finds space, also when no place is left.
pub intermediate_space_of_small_capacity :
    (row : TeeSheetRow) (datetime : String) (slot : TeeSheetSlotView)
    → find? (λ s. s.slot_datetime == datetime) row.slots ≡ some slot
    → slot_capacity slot < 4
    → target_row_has_intermediate_space row datetime ≡ true
intermediate_space_of_small_capacity row datetime slot found small =
    (intermediate_space_iff row datetime slot found).1 (omega arith)
