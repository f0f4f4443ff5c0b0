-- ===== src/Shortcuts/Keys.antt =====
-- What the key presses ask for, and the sequence of two.
use greenlink.Prelude.{
  ℕ, zero, suc, ◌+◌, ◌-◌, String, ◌≡◌, ◌≢◌, refl, ap, Bool, true, false, Option, none, some, List,
  [], ◌∷◌, arith, if◌then◌else◌, ◌==◌, string_eq, option_eq, get_elem?, eq_iff, Bool-cases,
  Option-cases, inl, inr, All, any, find?, ltb,
}
use greenlink.Prelude.Int.{ℤ, pos, negsuc, pos_part, neg_part, sub_ℕ}
use greenlink.Types.Booking.{BookingStatus, status_eq, status_beq_iff}
use greenlink.Types.TeeSheet.{TeeSheetBookingView, TeeSheetSlotView}
use greenlink.Sheet.Occupancy.{head?}
use greenlink.Shortcuts.{
  Params, ActiveElement, KeyPress, MultiKeyState, Effect, set_selected_slot_key, check_in_booking,
  mark_no_show, open_price_popover, scroll_to_top, Command, jump_today, shift_day, move_selection,
  go_bottom, search, waitlist_add, check_in_selected, no_show_selected, density, price_breakdown,
  message, select_slot, next_slot, current_index, handle_move_selection, eligible_booking, shifted,
  run, command_of, is_typing, is_plain_g, is_second_g, run_if, on_key,
}

-- The booking of the id is the first one of the selected row, and it is reserved.
pub record IsFirstReserved (p : Params) (id : String) : Type 0 where
  pub key : String
  pub slot : TeeSheetSlotView
  pub booking : TeeSheetBookingView
  pub selected : p.selected_slot_key ≡ some key
  pub row : find? (λ s. s.slot_datetime == key) p.slot_rows ≡ some slot
  pub first : head? slot.bookings ≡ some booking
  pub named : booking.id ≡ id
  pub is_reserved : booking.status ≡ BookingStatus.reserved

-- What an effect may ask for.
abbrev pub IsAllowed : Params → Effect → Type 0
IsAllowed p (check_in_booking id) = IsFirstReserved p id
IsAllowed p (mark_no_show id) = IsFirstReserved p id
IsAllowed p (set_selected_slot_key (some key)) =
    any (λ slot. slot.slot_datetime == key) p.slot_rows ≡ true
IsAllowed p (open_price_popover) = p.selected_slot_key ≢ none
IsAllowed p _ = Unit

eligible_booking-IsFirstReserved :
    (p : Params) (b : TeeSheetBookingView) → eligible_booking p ≡ some b → IsFirstReserved p b.id
unfolding eligible_booking
eligible_booking-IsFirstReserved p b h = elim (Option-cases p.selected_slot_key) [
  | inl nothing ↦ absurd (ground (arith, nothing))
  | inr (key, selected) ↦ elim (Option-cases (find? (λ s. s.slot_datetime == key) p.slot_rows)) [
    | inl nothing ↦ absurd (ground (arith, selected, nothing))
    | inr (slot, row) ↦ elim (Option-cases (head? slot.bookings)) [
      | inl nothing ↦ absurd (ground (arith, selected, row, nothing))
      | inr (booking, first) ↦ record {
        key = key;
        slot = slot;
        booking = booking;
        selected = selected;
        row = row;
        first = first;
        named = ground (arith, selected, row, first);
        is_reserved =
            ground
              (arith, selected, row, first, status_beq_iff booking.status BookingStatus.reserved);
      }
    ]
  ]
]

select-IsAllowed :
    (p : Params) (i : ℕ) (rows : List TeeSheetSlotView) (slot : TeeSheetSlotView)
    → get_elem? rows i ≡ some slot
    → any (λ s. s.slot_datetime == slot.slot_datetime) rows ≡ true
select-IsAllowed p i [] slot h = ground arith
select-IsAllowed p zero (s ∷ rows) slot h =
    ground (arith, eq_iff s.slot_datetime slot.slot_datetime)
select-IsAllowed p (suc i) (s ∷ rows) slot h = ground (arith, select-IsAllowed p i rows slot h)

slot-IsAllowed :
    (p : Params) (i : ℕ) (o : Option TeeSheetSlotView)
    → get_elem? p.slot_rows i ≡ o
    → All (IsAllowed p) (select_slot o)
slot-IsAllowed p i none h = tt
slot-IsAllowed p i (some slot) h = (select-IsAllowed p i p.slot_rows slot h, tt)

head-IsAllowed :
    (p : Params) (rows : List TeeSheetSlotView)
    → p.slot_rows ≡ rows
    → All (IsAllowed p) (select_slot (head? rows))
head-IsAllowed p [] h = tt
head-IsAllowed p (slot ∷ rows) h = slot-IsAllowed p 0 (some slot) (ap (λ r. get_elem? r 0) h)

next-IsAllowed : (p : Params) (d : ℤ) → All (IsAllowed p) (select_slot (next_slot d p.slot_rows))
next-IsAllowed p (pos n) = slot-IsAllowed p n (get_elem? p.slot_rows n) refl
next-IsAllowed p (negsuc n) = tt

start-IsAllowed :
    (p : Params) (down : Bool)
    → All (IsAllowed p) (if down then select_slot (head? p.slot_rows) else [])
start-IsAllowed p true = head-IsAllowed p p.slot_rows refl
start-IsAllowed p false = tt

index-IsAllowed :
    (p : Params) (d : ℤ) (o : Option ℕ)
    → All (IsAllowed p) (elim o [
      | none ↦ if ltb 0 (pos_part d) then select_slot (head? p.slot_rows) else []
      | some index ↦ select_slot (next_slot (sub_ℕ (index + pos_part d) (neg_part d)) p.slot_rows)
    ])
index-IsAllowed p d none = start-IsAllowed p (ltb 0 (pos_part d))
index-IsAllowed p d (some i) = next-IsAllowed p (sub_ℕ (i + pos_part d) (neg_part d))

move-IsAllowed : (p : Params) (d : ℤ) → All (IsAllowed p) (handle_move_selection d p)
unfolding handle_move_selection
move-IsAllowed p d = index-IsAllowed p d (current_index p.selected_slot_key p.slot_rows)

module _ (shift_iso_date : String → ℤ → Option String) where
  shifted-IsAllowed : (p : Params) (o : Option String) → All (IsAllowed p) (shifted o)
  shifted-IsAllowed p none = tt
  shifted-IsAllowed p (some date) = (tt, (tt, tt))

  run-IsAllowed : (p : Params) (c : Command) → All (IsAllowed p) (run shift_iso_date c p)
  unfolding run
  run-IsAllowed p jump_today = (tt, (tt, tt))
  run-IsAllowed p (shift_day d) = shifted-IsAllowed p (shift_iso_date p.selected_date d)
  run-IsAllowed p (move_selection d) = move-IsAllowed p d
  run-IsAllowed p go_bottom = (tt, (tt, tt))
  run-IsAllowed p search = (tt, tt)
  run-IsAllowed p waitlist_add = (tt, tt)
  run-IsAllowed p check_in_selected = elim (Option-cases (eligible_booking p)) [
    | inl nothing ↦ rw nothing (tt, tt)
    | inr (b, there) ↦ rw there (eligible_booking-IsFirstReserved p b there, (tt, tt))
  ]
  run-IsAllowed p no_show_selected = elim (Option-cases (eligible_booking p)) [
    | inl nothing ↦ rw nothing (tt, tt)
    | inr (b, there) ↦ rw there (eligible_booking-IsFirstReserved p b there, (tt, tt))
  ]
  run-IsAllowed p density = (tt, (tt, tt))
  run-IsAllowed p price_breakdown = elim (Option-cases p.selected_slot_key) [
    | inl nothing ↦ rw nothing (tt, tt)
    | inr (k, there) ↦ rw there ((λ e. ground (arith, e, there)), tt)
  ]
  run-IsAllowed p (message text) = (tt, tt)

  run_if-IsAllowed :
      (p : Params) (o : Option Command) → All (IsAllowed p) (run_if shift_iso_date o p)
  run_if-IsAllowed p none = tt
  run_if-IsAllowed p (some c) = run-IsAllowed p c

  -- Whatever key is pressed, a check-in or a no-show is asked for only for the first booking of the
  -- selected row, and only while it is reserved; the selection moves only to a row that is shown;
  -- and the price opens only with a selection.
  pub on_key-IsAllowed :
      (active : Option ActiveElement) (p : Params) (e : KeyPress) (last : MultiKeyState)
      → All (IsAllowed p) (on_key shift_iso_date active p e last).1
  unfolding on_key
  on_key-IsAllowed active p e last = elim (Bool-cases (is_typing active)) [
    | inl typing ↦ rw typing tt
    | inr free ↦ elim (Bool-cases (is_plain_g e)) [
      | inl plain ↦ elim (Bool-cases (is_second_g e last)) [
        | inl second ↦ rw (free, plain, second) (tt, (tt, tt))
        | inr waits ↦ rw (free, plain, waits) tt
      ]
      | inr other ↦ rw (free, other) (run_if-IsAllowed p (command_of e))
    ]
  ]

  -- Outside a text field and after any other key, two presses of g scroll to the top exactly if the second comes less than a
  -- second behind the first; a press that has scrolled is not the first of another pair.
  pub on_key-gg :
      (active : Option ActiveElement) (p : Params) (other g1 g2 g3 : KeyPress)
      (last : MultiKeyState)
      → is_typing active ≡ false
      → is_plain_g other ≡ false
      → is_plain_g g1 ≡ true
      → is_plain_g g2 ≡ true
      → is_plain_g g3 ≡ true
      → (let before = (on_key shift_iso_date active p other last).0 in
          let one = on_key shift_iso_date active p g1 before in
          let two = on_key shift_iso_date active p g2 one.0 in
          let three = on_key shift_iso_date active p g3 two.0 in
          let top = scroll_to_top ∷ set_selected_slot_key none ∷ [] in
          (one.1 ≡ [])
          × (two.1 ≡ (if ltb (g2.now - g1.now) 1000 then top else []))
          × (three.1 ≡ (
              if ltb (g2.now - g1.now) 1000
              then []
              else (if ltb (g3.now - g2.now) 1000 then top else []))))
  unfolding on_key
  on_key-gg active p other g1 g2 g3 last free o a b c = ground (arith, free, o, a, b, c)
