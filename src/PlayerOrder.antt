-- ===== src/PlayerOrder.antt =====
-- frontend/src/pages/player-order-page.tsx: the quantities that a player taps together and the order
-- that is placed of them. The object of quantities is an association list.
pub mod Taps
use greenlink.Prelude.{
  ℕ, String, Bool, true, false, not, ◌||◌, Option, none, some, List, [], ◌∷◌, ◌+◌, map, filter, sum,
  if◌then◌else◌, ◌==◌, ◌!=◌, string_eq, ltb,
}
use greenlink.Prelude.Text.{is_blank}
use greenlink.Prelude.Int.{ℤ, pos, negsuc, sub_ℕ}
use greenlink.Types.Orders.{
  OrderMenuItem, OrderCreateItemInput, OrderCreateInput, OrderCreateResult, player_app,
}
use greenlink.Move.{Outcome, ok, err}

abbrev pub Quantities : Type 0
Quantities = List (String × ℕ)

-- quantities[productId] ?? 0
unfoldable pub quantity_for : String → Quantities → ℕ
quantity_for key [] = 0
quantity_for key ((k, n) ∷ m) = let rest = quantity_for key m in if k == key then n else rest

-- { ...current, [productId]: nextQuantity }
unfoldable pub set_quantity : String → ℕ → Quantities → Quantities
set_quantity key n [] = (key, n) ∷ []
set_quantity key n ((k, old) ∷ m) =
    let rest = set_quantity key n m in if k == key then (k, n) ∷ m else (k, old) ∷ rest

-- delete updated[productId]
unfoldable pub delete_quantity : String → Quantities → Quantities
delete_quantity key [] = []
delete_quantity key ((k, n) ∷ m) =
    let rest = delete_quantity key m in if k == key then rest else (k, n) ∷ rest

pub record OrderPage : Type 0 where
  pub quantities : Quantities
  pub feedback_message : Option String
  pub confirmation : Option OrderCreateResult

abbrev pub next_quantities : String → ℤ → Quantities → Quantities
next_quantities product_id (negsuc _) current = delete_quantity product_id current
next_quantities product_id (pos n) current =
    if ltb 0 n then set_quantity product_id n current else delete_quantity product_id current

unfoldable pub adjust_quantity : String → ℤ → OrderPage → OrderPage
unfolding set_quantity delete_quantity
adjust_quantity product_id next_quantity page = record {
  quantities = next_quantities product_id next_quantity page.quantities;
  feedback_message = none;
  confirmation = none;
}

abbrev pub wants : Quantities → OrderMenuItem → Bool
wants quantities item = ltb 0 (quantity_for item.product_id quantities)

unfoldable pub selected_items : List OrderMenuItem → Quantities → List OrderMenuItem
unfolding quantity_for
selected_items menu quantities = filter (wants quantities) menu

unfoldable pub total_quantity : List OrderMenuItem → Quantities → ℕ
unfolding quantity_for selected_items
total_quantity menu quantities =
    sum (λ item. quantity_for item.product_id quantities) (selected_items menu quantities)

abbrev pub order_item : (String → ℕ) → OrderMenuItem → OrderCreateItemInput
order_item quantity item = record {
  product_id = some item.product_id;
  item_name = item.item_name;
  unit_price = item.unit_price;
  quantity = quantity item.product_id;
}

abbrev pub order_of : List OrderCreateItemInput → OrderCreateInput
order_of items = record { person_id = none; booking_id = none; source = player_app; items = items }

-- The request of `handlePlaceOrder`, if it makes one.
abbrev pub request_of : Bool → List OrderMenuItem → (String → ℕ) → Option OrderCreateInput
request_of is_pending [] quantity = none
request_of is_pending (item ∷ items) quantity =
    if is_pending then none else some (order_of (map (order_item quantity) (item ∷ items)))

unfoldable pub handle_place_order : List OrderMenuItem → Bool → OrderPage → Option OrderCreateInput
unfolding selected_items quantity_for
handle_place_order menu is_pending page =
    request_of is_pending (selected_items menu page.quantities)
      (λ id. quantity_for id page.quantities)

-- The callbacks of the request: a result, or the message of an error.
unfoldable pub order_answer : Outcome String OrderCreateResult → OrderPage → OrderPage
order_answer (ok result) page = record {
  quantities = [];
  feedback_message = some (
      if result.created
      then "Order placed. Status will update from backend state."
      else "Order already recorded.");
  confirmation = some result;
}
order_answer (err message) page = record page {
  feedback_message = some (if is_blank message then "Order request failed" else message);
}
