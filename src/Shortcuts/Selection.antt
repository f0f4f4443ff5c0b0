-- ===== src/Shortcuts/Selection.antt =====
-- Moving the selection with the keys j and k.
use greenlink.Prelude.{
  ℕ, ◌+◌, String, ◌≡◌, refl, true, some, List, [], ◌∷◌, arith, ◌==◌, string_eq, get_elem?, eq_iff,
  Bool-cases, Option-cases, inl, inr,
}
use greenlink.Prelude.Int.{pos, negsuc, sub_ℕ}
use greenlink.Prelude.Text.{is_set}
use greenlink.Types.TeeSheet.{TeeSheetSlotView}
use greenlink.Shortcuts.{
  Params, set_selected_slot_key, find_index, next_slot, handle_move_selection,
}

-- The index that is found is one of a row with the key.
find_index-get :
    (key : String) (rows : List TeeSheetSlotView) (i : ℕ)
    → find_index key rows ≡ some i
    → (slot : TeeSheetSlotView) × (get_elem? rows i ≡ some slot) × (slot.slot_datetime ≡ key)
unfolding find_index
find_index-get key [] i h = ground arith
find_index-get key (slot ∷ slots) i h = elim (Bool-cases (slot.slot_datetime == key)) [
  | inl same ↦ (slot, ground (arith, same), (eq_iff slot.slot_datetime key).0 same)
  | inr other ↦ elim (Option-cases (find_index key slots)) [
    | inl missing ↦ absurd (ground (arith, other, missing))
    | inr (j, there) ↦
        let (found, at, named) = find_index-get key slots j there in
        (found, ground (arith, other, there, at), named)
  ]
]

below_it :
    (rows : List TeeSheetSlotView) (i : ℕ)
    → next_slot (sub_ℕ (i + 1) 0) rows ≡ get_elem? rows (i + 1)
below_it rows i = let shown : sub_ℕ (i + 1) 0 ≡ pos (i + 1) = ground arith in rw shown refl

above_it :
    (rows : List TeeSheetSlotView) (i : ℕ) → next_slot (sub_ℕ (i + 1 + 0) 1) rows ≡ get_elem? rows i
above_it rows i = let shown : sub_ℕ (i + 1 + 0) 1 ≡ pos i = ground arith in rw shown refl

-- If j moves the selection from a row, and the key of the row that it moves to is not that of an
-- earlier row, k moves it back.
pub move_selection-back :
    (p : Params) (key : String) (i : ℕ) (below : TeeSheetSlotView)
    → p.selected_slot_key ≡ some key
    → is_set (some key) ≡ true
    → find_index key p.slot_rows ≡ some i
    → get_elem? p.slot_rows (i + 1) ≡ some below
    → is_set (some below.slot_datetime) ≡ true
    → find_index below.slot_datetime p.slot_rows ≡ some (i + 1)
    → (handle_move_selection (pos 1) p ≡ set_selected_slot_key (some below.slot_datetime) ∷ [])
      × (handle_move_selection
            (negsuc 0)
            (record p { selected_slot_key = some below.slot_datetime })
          ≡ set_selected_slot_key (some key) ∷ [])
unfolding handle_move_selection
move_selection-back p key i below e set at next set' at' =
    let (slot, there, named) = find_index-get key p.slot_rows i at in
    (ground (arith, below_it p.slot_rows i), ground (arith, above_it p.slot_rows i, there, named))
