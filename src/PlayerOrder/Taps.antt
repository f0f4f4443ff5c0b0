-- ===== src/PlayerOrder/Taps.antt =====
-- The order as what was tapped.
use greenlink.Prelude.{
  ℕ, String, ◌≡◌, refl, ap, ◌∙◌, Bool, true, false, Option, none, some, List, [], ◌∷◌, ◌+◌, ◌-◌,
  map, filter, if◌then◌else◌, ◌==◌, string_eq, ltb, arith, Bool-cases, inl, inr,
}
use greenlink.Prelude.Int.{ℤ, pos, negsuc, pos_part, sub_ℕ}
use greenlink.Types.Orders.{
  OrderMenuItem, OrderCreateItemInput, OrderCreateInput, OrderCreateResult, player_app,
}
use greenlink.PlayerOrder.{
  Quantities, quantity_for, set_quantity, delete_quantity, OrderPage, next_quantities,
  adjust_quantity, selected_items, order_item, order_of, request_of, handle_place_order,
}

-- The two buttons of an item, and what they do to the page.
pub data Tap : Type 0 where
  up down : String → Tap

abbrev pub tap : Tap → OrderPage → OrderPage
tap (up id) page = adjust_quantity id (pos (quantity_for id page.quantities + 1)) page
tap (down id) page = adjust_quantity id (sub_ℕ (quantity_for id page.quantities) 1) page

abbrev pub run : List Tap → OrderPage → OrderPage
run [] page = page
run (t ∷ ts) page = run ts (tap t page)

-- How often an item was tapped, never below none.
abbrev pub count : Tap → (String → ℕ) → String → ℕ
count (up id) wanted k = if id == k then wanted k + 1 else wanted k
count (down id) wanted k = if id == k then wanted k - 1 else wanted k

abbrev pub tally : List Tap → (String → ℕ) → String → ℕ
tally [] wanted = wanted
tally (t ∷ ts) wanted = tally ts (count t wanted)

set-get :
    (key : String) (n : ℕ) (m : Quantities) (k : String)
    → quantity_for k (set_quantity key n m) ≡ (if key == k then n else quantity_for k m)
unfolding quantity_for set_quantity
set-get key n [] k = refl
set-get key n ((j, old) ∷ m) k = ground (
  arith,
  string_eq.beq_iff key k,
  string_eq.beq_iff j key,
  string_eq.beq_iff j k,
  set-get key n m k,
)

delete-get :
    (key : String) (m : Quantities) (k : String)
    → quantity_for k (delete_quantity key m) ≡ (if key == k then 0 else quantity_for k m)
unfolding quantity_for delete_quantity
delete-get key [] k = ground arith
delete-get key ((j, old) ∷ m) k = ground (
  arith,
  string_eq.beq_iff key k,
  string_eq.beq_iff j key,
  string_eq.beq_iff j k,
  delete-get key m k,
)

next-get :
    (key : String) (n : ℤ) (m : Quantities) (k : String)
    → quantity_for k (next_quantities key n m) ≡ (if key == k then pos_part n else quantity_for k m)
next-get key (negsuc _) m k = delete-get key m k
next-get key (pos n) m k = elim (Bool-cases (ltb 0 n)) [
  | inl positive ↦ rw positive (set-get key n m k)
  | inr none_left ↦
      let e : n ≡ 0 = ground (arith, none_left) in rw (none_left, e) (delete-get key m k)
]

one_less : (n : ℕ) → pos_part (sub_ℕ n 1) ≡ n - 1
one_less n = ground arith

at_key :
    (f : ℕ → ℕ) (q : String → ℕ) (id k : String)
    → (if id == k then f (q id) else q k) ≡ (if id == k then f (q k) else q k)
at_key f q id k = elim (Bool-cases (id == k)) [
  | inl same ↦ rw same (ap (λ j. f (q j)) ((string_eq.beq_iff id k).0 same))
  | inr other ↦ rw other refl
]

tap-count :
    (t : Tap) (page : OrderPage) (k : String)
    → quantity_for k (tap t page).quantities ≡ count t (λ j. quantity_for j page.quantities) k
unfolding adjust_quantity
tap-count (up id) page k =
    next-get id (pos (quantity_for id page.quantities + 1)) page.quantities k
    ∙ at_key (λ n. n + 1) (λ j. quantity_for j page.quantities) id k
tap-count (down id) page k =
    next-get id (sub_ℕ (quantity_for id page.quantities) 1) page.quantities k
    ∙ rw (one_less (quantity_for id page.quantities))
        (at_key (λ n. n - 1) (λ j. quantity_for j page.quantities) id k)

count_same :
    (t : Tap) (a b : String → ℕ)
    → ((k : String) → a k ≡ b k)
    → (k : String) → count t a k ≡ count t b k
count_same (up id) a b e k = rw (e k) refl
count_same (down id) a b e k = rw (e k) refl

tally_same :
    (ts : List Tap) (a b : String → ℕ)
    → ((k : String) → a k ≡ b k)
    → (k : String) → tally ts a k ≡ tally ts b k
tally_same [] a b e k = e k
tally_same (t ∷ ts) a b e k = tally_same ts (count t a) (count t b) (count_same t a b e) k

run-tally :
    (ts : List Tap) (page : OrderPage) (k : String)
    → quantity_for k (run ts page).quantities ≡ tally ts (λ j. quantity_for j page.quantities) k
run-tally [] page k = refl
run-tally (t ∷ ts) page k =
    run-tally ts (tap t page) k ∙ tally_same ts _ _ (λ j. tap-count t page j) k

selected_same :
    (menu : List OrderMenuItem) (m : Quantities) (wanted : String → ℕ)
    → ((k : String) → quantity_for k m ≡ wanted k)
    → selected_items menu m ≡ filter (λ item. ltb 0 (wanted item.product_id)) menu
unfolding selected_items
selected_same [] m wanted e = refl
selected_same (item ∷ menu) m wanted e = rw (e item.product_id, selected_same menu m wanted e) refl

items_same :
    (items : List OrderMenuItem) (a b : String → ℕ)
    → ((k : String) → a k ≡ b k)
    → map (order_item a) items ≡ map (order_item b) items
items_same [] a b e = refl
items_same (item ∷ items) a b e = rw (e item.product_id, items_same items a b e) refl

request_same :
    (is_pending : Bool) (items : List OrderMenuItem) (a b : String → ℕ)
    → ((k : String) → a k ≡ b k)
    → request_of is_pending items a ≡ request_of is_pending items b
request_same is_pending [] a b e = refl
request_same true (item ∷ items) a b e = refl
request_same false (item ∷ items) a b e =
    ap (λ l. some (order_of l)) (items_same (item ∷ items) a b e)

-- The lines of an order: the wanted items of the menu, each with the count that is wanted.
abbrev pub lines : List OrderMenuItem → (String → ℕ) → List OrderCreateItemInput
lines [] wanted = []
lines (item ∷ menu) wanted =
    let later = lines menu wanted in
    if ltb 0 (wanted item.product_id)
    then record {
      product_id = some item.product_id;
      item_name = item.item_name;
      unit_price = item.unit_price;
      quantity = wanted item.product_id;
    }
      ∷ later
    else later

-- No order without a line, nor while another one is open.
abbrev pub placed : Bool → List OrderCreateItemInput → Option OrderCreateInput
placed true items = none
placed false [] = none
placed false (item ∷ items) =
    some (record { person_id = none; booking_id = none; source = player_app; items = item ∷ items })

lines_lem :
    (menu : List OrderMenuItem) (wanted : String → ℕ)
    → map (order_item wanted) (filter (λ item. ltb 0 (wanted item.product_id)) menu)
      ≡ lines menu wanted
lines_lem [] wanted = refl
lines_lem (item ∷ menu) wanted = elim (Bool-cases (ltb 0 (wanted item.product_id))) [
  | inl some_wanted ↦ rw (some_wanted, lines_lem menu wanted) refl
  | inr none_wanted ↦ rw (none_wanted, lines_lem menu wanted) refl
]

request_of-placed :
    (is_pending : Bool) (items : List OrderMenuItem) (wanted : String → ℕ)
    → request_of is_pending items wanted ≡ placed is_pending (map (order_item wanted) items)
request_of-placed true [] wanted = refl
request_of-placed false [] wanted = refl
request_of-placed true (item ∷ items) wanted = refl
request_of-placed false (item ∷ items) wanted = refl

-- The order that is placed after any taps, from the empty page, has exactly the items of the menu whose
-- count of taps, up less down and never below none, is positive, in the menu's order, each with its
-- name, its price and that count. No order is placed if there is no such item or while another one
-- is open.
pub handle_place_order_lem :
    (taps : List Tap) (menu : List OrderMenuItem) (is_pending : Bool) (message : Option String)
    (confirmation : Option OrderCreateResult)
    → handle_place_order menu is_pending (
        run taps
          (record { quantities = []; feedback_message = message; confirmation = confirmation }))
      ≡ placed is_pending (lines menu (tally taps (λ k. 0)))
unfolding handle_place_order quantity_for
handle_place_order_lem taps menu is_pending message confirmation =
    let page : OrderPage = record {
      quantities = [];
      feedback_message = message;
      confirmation = confirmation;
    } in
    let counted = λ (k : String). run-tally taps page k in
    let wanted = tally taps (λ k. 0) in
    request_same is_pending (selected_items menu (run taps page).quantities) _ _ counted
    ∙ ap (λ items. request_of is_pending items wanted)
        (selected_same menu (run taps page).quantities wanted counted)
    ∙ request_of-placed is_pending (filter (λ item. ltb 0 (wanted item.product_id)) menu) wanted
    ∙ ap (placed is_pending) (lines_lem menu wanted)
