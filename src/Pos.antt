-- ===== src/Pos.antt =====
-- frontend/src/pages/admin-pos-terminal-page.tsx: the cart of the till and its checkout.
--
-- The arithmetic of prices is that of the browser's floating-point numbers and a parameter: a line
-- total is a function of the price and the quantity, `line_total`, where `first_total` stands for
-- that of one item, which the source computes without the factor.
pub mod Cart
pub mod Lines
pub mod Removal
pub mod Basket
pub mod Prices
use greenlink.Prelude.{
  ℕ, String, Bool, true, false, ◌&&◌, Option, none, some, List, [], ◌∷◌, ◌++◌, ◌+◌, ◌-◌, map,
  map_from, any, filter, sum, if◌then◌else◌, ◌==◌, ◌!=◌, string_eq, nat_eq, ltb,
}
use greenlink.Prelude.Text.{◌++ₛ◌, truthy}
use greenlink.Prelude.Int.{ℤ, pos, negsuc, pos_part, neg_part}
use greenlink.Sheet.Occupancy.{get_or}
use greenlink.Types.Booking.{MutationDecision, allowed, blocked}
use greenlink.Types.Pos.{
  PosProduct, CartItem, TenderType, PosTransactionItemInput, PosTransactionCreateInput,
  PosTransactionResult,
}
use greenlink.Move.{Outcome, ok, err}

-- c.product_id ?? c.item_name
abbrev pub key_of : CartItem → String
key_of c = get_or c.product_id c.item_name

abbrev pub has_key : String → CartItem → Bool
has_key key c = key_of c == key

pub data CheckoutStatus : Type 0 where
  idle_status loading_status success_status error_status : CheckoutStatus

pub record Till : Type 0 where
  pub cart : List CartItem
  pub selected_tender : TenderType
  pub checkout_status : CheckoutStatus
  pub error_msg : Option String

-- The sum of a quantity and a difference, for a quantity that is then kept only if it is positive.
abbrev pub shifted : ℕ → ℤ → ℕ
shifted quantity delta = quantity + pos_part delta - neg_part delta

abbrev pub is_positive : CartItem → Bool
is_positive c = ltb 0 c.quantity

module _ (line_total : String → ℕ → String) (first_total : String → String) where
  abbrev pub bump : String → String → CartItem → CartItem
  bump key unit_price c =
      if has_key key c
      then record c {
        quantity = c.quantity + 1;
        line_total = line_total unit_price (c.quantity + 1);
      }
      else c

  unfoldable pub add_to_cart : Option String → String → String → List CartItem → List CartItem
  add_to_cart product_id item_name unit_price prev =
      let key = get_or product_id item_name in
      if any (has_key key) prev
      then map (bump key unit_price) prev
      else prev
        ++ (record {
          product_id = product_id;
          item_name = item_name;
          unit_price = unit_price;
          quantity = 1;
          line_total = first_total unit_price;
        }
            ∷ [])

  abbrev pub change_item : ℕ → ℤ → CartItem → ℕ → CartItem
  change_item index delta c i = if i != index then c else record c {
    quantity = shifted c.quantity delta;
    line_total = line_total c.unit_price (shifted c.quantity delta);
  }

  unfoldable pub change_qty : ℕ → ℤ → List CartItem → List CartItem
  change_qty index delta prev = filter is_positive (map_from (change_item index delta) 0 prev)

-- prev.filter((_, i) => i !== index), from the index `i` on
abbrev pub without_index : ℕ → ℕ → List CartItem → List CartItem
without_index i index [] = []
without_index i index (c ∷ cs) =
    let rest = without_index (i + 1) index cs in if i != index then c ∷ rest else rest

unfoldable pub remove_from_cart : ℕ → List CartItem → List CartItem
remove_from_cart index prev = without_index 0 index prev

unfoldable pub clear_cart : Till → Till
clear_cart t = record t { cart = []; checkout_status = idle_status; error_msg = none }

abbrev pub total_items : List CartItem → ℕ
total_items cart = sum (λ c. c.quantity) cart

abbrev pub item_input : CartItem → PosTransactionItemInput
item_input c = record {
  product_id = c.product_id;
  item_name = c.item_name;
  unit_price = c.unit_price;
  quantity = c.quantity;
}

abbrev payload_of : Till → PosTransactionCreateInput
payload_of t = record {
  items = map item_input t.cart;
  tender_type = t.selected_tender;
  person_id = none;
  notes = none;
}

-- `handleCheckout` up to the request: nothing of an empty cart.
unfoldable pub handle_checkout : Till → Option PosTransactionCreateInput × Till
handle_checkout t = elim t.cart [
  | [] ↦ (none, t)
  | _ ∷ _ ↦ (some (payload_of t), record t { checkout_status = loading_status; error_msg = none })
]

-- failures.join(", ")
abbrev joined : List String → String
joined [] = ""
joined (f ∷ fs) = elim fs [ [] ↦ f | _ ∷ _ ↦ f ++ₛ ", " ++ₛ joined fs ]

abbrev is_allowed : MutationDecision → Bool
is_allowed allowed = true
is_allowed blocked = false

-- What follows the answer: a result, or the message of an exception.
unfoldable pub checkout_answer : Outcome String PosTransactionResult → Till → Till
checkout_answer (ok result) t =
    if is_allowed result.decision && result.transaction_applied
    then record t { checkout_status = success_status; cart = [] }
    else record t {
      checkout_status = error_status;
      error_msg = some (
          if truthy (joined result.failures) then joined result.failures else "Transaction failed");
    }
checkout_answer (err message) t = record t {
  checkout_status = error_status;
  error_msg = some message;
}

-- products.map((p) => p.category ?? "Other"), each once, behind "all"
abbrev category_of : PosProduct → String
category_of p = get_or p.category "Other"

abbrev distinct : List String → List String → List String
distinct seen [] = []
distinct seen (c ∷ cs) =
    let rest = distinct (c ∷ seen) cs in
    let rest' = distinct seen cs in if any (λ s. s == c) seen then rest' else c ∷ rest

unfoldable pub categories : List PosProduct → List String
categories products = "all" ∷ distinct [] (map category_of products)

unfoldable pub filtered_products : String → List PosProduct → List PosProduct
filtered_products active products =
    if active == "all" then products else filter (λ p. category_of p == active) products
