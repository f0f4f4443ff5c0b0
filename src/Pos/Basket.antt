-- ===== src/Pos/Basket.antt =====
-- The cart as a basket: how many of each key it holds.
use greenlink.Prelude.{
  ℕ, String, ◌≡◌, refl, ◌∙◌, Option, none, some, List, [], ◌∷◌, ◌+◌, if◌then◌else◌, ◌==◌, string_eq,
  get_elem?,
}
use greenlink.Prelude.Int.{ℤ}
use greenlink.Sheet.Occupancy.{get_or}
use greenlink.Types.Pos.{CartItem}
use greenlink.Pos.{key_of, shifted, add_to_cart, change_qty, remove_from_cart}
use greenlink.Pos.Cart.{quantity_of, IsCart, add_quantity, add-IsCart}
use greenlink.Pos.Lines.{adjusted, change_quantity, change-IsCart}
use greenlink.Pos.Removal.{removed, remove_quantity, remove-IsCart}

-- The buttons of the till.
pub data CartOp : Type 0 where
  add : Option String → String → String → CartOp
  change : ℕ → ℤ → CartOp
  remove : ℕ → CartOp
  clear : CartOp

module _ (line_total : String → ℕ → String) (first_total : String → String) where
  abbrev pub step : CartOp → List CartItem → List CartItem
  step (add product_id item_name unit_price) cart =
      add_to_cart line_total first_total product_id item_name unit_price cart
  step (change index delta) cart = change_qty line_total first_total index delta cart
  step (remove index) cart = remove_from_cart index cart
  step clear cart = []

  abbrev pub run : List CartOp → List CartItem → List CartItem
  run [] cart = cart
  run (op ∷ ops) cart = run ops (step op cart)

-- A basket knows keys, not lines.
pub data BasketOp : Type 0 where
  add_one : String → BasketOp
  shift : String → ℤ → BasketOp
  drop : String → BasketOp
  nothing drop_all : BasketOp

abbrev pub apply : BasketOp → (String → ℕ) → String → ℕ
apply (add_one key) b k = b k + (if key == k then 1 else 0)
apply (shift key delta) b k = if key == k then shifted (b k) delta else b k
apply (drop key) b k = if key == k then 0 else b k
apply nothing b k = b k
apply drop_all b k = 0

abbrev pub replay : List BasketOp → (String → ℕ) → String → ℕ
replay [] b = b
replay (op ∷ ops) b = replay ops (apply op b)

-- A button names the key of its line, and nothing where there is no such line.
abbrev at_line : Option CartItem → (String → BasketOp) → BasketOp
at_line none f = nothing
at_line (some c) f = f (key_of c)

abbrev pub meaning : CartOp → List CartItem → BasketOp
meaning (add product_id item_name unit_price) cart = add_one (get_or product_id item_name)
meaning (change index delta) cart = at_line (get_elem? cart index) (λ key. shift key delta)
meaning (remove index) cart = at_line (get_elem? cart index) drop
meaning clear cart = drop_all

module _ (line_total : String → ℕ → String) (first_total : String → String) where
  abbrev pub meanings : List CartOp → List CartItem → List BasketOp
  meanings [] cart = []
  meanings (op ∷ ops) cart = meaning op cart ∷ meanings ops (step line_total first_total op cart)

  step-IsCart :
      (op : CartOp) (cart : List CartItem)
      → IsCart cart
      → IsCart (step line_total first_total op cart)
  step-IsCart (add product_id item_name unit_price) cart w =
      add-IsCart line_total first_total product_id item_name unit_price cart w
  step-IsCart (change index delta) cart w = change-IsCart line_total first_total index delta cart w
  step-IsCart (remove index) cart w = remove-IsCart index cart w
  step-IsCart clear cart w = tt

  adjusted-apply :
      (o : Option CartItem) (delta : ℤ) (b : String → ℕ) (k : String)
      → adjusted line_total first_total o delta k (b k)
        ≡ apply (at_line o (λ key. shift key delta)) b k
  adjusted-apply none delta b k = refl
  adjusted-apply (some c) delta b k = refl

  removed-apply :
      (o : Option CartItem) (b : String → ℕ) (k : String)
      → removed o k (b k) ≡ apply (at_line o drop) b k
  removed-apply none b k = refl
  removed-apply (some c) b k = refl

  step_quantity :
      (op : CartOp) (cart : List CartItem) (k : String)
      → IsCart cart
      → quantity_of (step line_total first_total op cart) k
        ≡ apply (meaning op cart) (quantity_of cart) k
  step_quantity (add product_id item_name unit_price) cart k w =
      add_quantity line_total first_total product_id item_name unit_price cart k w
  step_quantity (change index delta) cart k w =
      change_quantity line_total first_total index delta cart k w
      ∙ adjusted-apply (get_elem? cart index) delta (quantity_of cart) k
  step_quantity (remove index) cart k w =
      remove_quantity index cart k w ∙ removed-apply (get_elem? cart index) (quantity_of cart) k
  step_quantity clear cart k w = refl

  apply_same :
      (op : BasketOp) (a b : String → ℕ)
      → ((k : String) → a k ≡ b k)
      → (k : String) → apply op a k ≡ apply op b k
  apply_same (add_one key) a b e k = rw (e k) refl
  apply_same (shift key delta) a b e k = rw (e k) refl
  apply_same (drop key) a b e k = rw (e k) refl
  apply_same nothing a b e k = e k
  apply_same drop_all a b e k = refl

  replay_same :
      (ops : List BasketOp) (a b : String → ℕ)
      → ((k : String) → a k ≡ b k)
      → (k : String) → replay ops a k ≡ replay ops b k
  replay_same [] a b e k = e k
  replay_same (op ∷ ops) a b e k = replay_same ops (apply op a) (apply op b) (apply_same op a b e) k

  run_from :
      (ops : List CartOp) (cart : List CartItem) (k : String)
      → IsCart cart
      → (quantity_of (run line_total first_total ops cart) k
          ≡ replay (meanings ops cart) (quantity_of cart) k)
        × IsCart (run line_total first_total ops cart)
  run_from [] cart k w = (refl, w)
  run_from (op ∷ ops) cart k w =
      let (e, w') = run_from ops (step line_total first_total op cart) k (step-IsCart op cart w) in
      (
        e
            ∙ replay_same (meanings ops (step line_total first_total op cart)) _ _
                (λ j. step_quantity op cart j w) k,
        w',
      )

  -- Any sequence of the till's buttons, from the empty cart: the cart never holds two lines of one key
  -- nor a line without items, and the quantity of every key is what the same buttons make of a
  -- basket that knows only keys and quantities.
  pub run-IsCart :
      (ops : List CartOp) (k : String)
      → (quantity_of (run line_total first_total ops []) k ≡ replay (meanings ops []) (λ j. 0) k)
        × IsCart (run line_total first_total ops [])
  run-IsCart ops k = run_from ops [] k tt
