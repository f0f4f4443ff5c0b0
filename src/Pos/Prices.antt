-- ===== src/Pos/Prices.antt =====
-- The line totals of the cart.
use greenlink.Prelude.{
  ℕ, String, ◌≡◌, refl, sym, ap, ◌∙◌, some, List, [], ◌∷◌, ◌++◌, ◌+◌, map, map_from, any, filter,
  if◌then◌else◌, ◌!=◌, string_eq, nat_eq, All, Bool-cases, inl, inr, str_eq_refl,
}
use greenlink.Prelude.Int.{ℤ}
use greenlink.Sheet.Occupancy.{get_or}
use greenlink.Types.Pos.{CartItem}
use greenlink.Pos.{
  key_of, has_key, shifted, is_positive, bump, add_to_cart, change_item, change_qty, without_index,
  remove_from_cart,
}
use greenlink.Pos.Basket.{CartOp, add, change, remove, clear, step, run}

module _ (line_total : String → ℕ → String) (first_total : String → String)
    (price : String → String) where
  -- The line shows the price that its key has, and the total of its price and quantity.
  abbrev pub IsPriced : CartItem → Type 0
  IsPriced c =
      (c.unit_price ≡ price (key_of c)) × (c.line_total ≡ line_total c.unit_price c.quantity)

  -- Items are added at the price that their key has.
  abbrev pub IsListed : CartOp → Type 0
  IsListed (add product_id item_name unit_price) = unit_price ≡ price (get_or product_id item_name)
  IsListed _ = Unit

  All-bump :
      (key unit_price : String) (cs : List CartItem)
      → unit_price ≡ price key
      → All IsPriced cs
      → All IsPriced (map (bump line_total first_total key unit_price) cs)
  All-bump key unit_price [] listed h = tt
  All-bump key unit_price (c ∷ cs) listed h = elim (Bool-cases (has_key key c)) [
    | inl mine ↦
        let same : key_of c ≡ key = (string_eq.beq_iff (key_of c) key).0 mine in
        let old : unit_price ≡ c.unit_price = listed ∙ ap price (sym same) ∙ sym h.0.0 in
        rw mine (
          (h.0.0, ap (λ p. line_total p (c.quantity + 1)) old),
          All-bump key unit_price cs listed h.1,
        )
    | inr other ↦ rw other (h.0, All-bump key unit_price cs listed h.1)
  ]

  All-append_one :
      (cs : List CartItem) (c : CartItem)
      → All IsPriced cs
      → IsPriced c
      → All IsPriced (cs ++ (c ∷ []))
  All-append_one [] c h p = (p, tt)
  All-append_one (d ∷ cs) c h p = (h.0, All-append_one cs c h.1 p)

  All-filtered :
      (c : CartItem) (cs : List CartItem)
      → IsPriced c
      → All IsPriced cs
      → All IsPriced (if is_positive c then c ∷ cs else cs)
  All-filtered c cs p h = elim (Bool-cases (is_positive c)) [
    | inl kept ↦ rw kept (p, h)
    | inr dropped ↦ rw dropped h
  ]

  All-change :
      (index : ℕ) (delta : ℤ) (i : ℕ) (cs : List CartItem)
      → All IsPriced cs
      → All IsPriced
          (filter is_positive (map_from (change_item line_total first_total index delta) i cs))
  All-change index delta i [] h = tt
  All-change index delta i (c ∷ cs) h =
      let rest = All-change index delta (i + 1) cs h.1 in
      elim (Bool-cases (i != index)) [
        | inl other ↦ rw other (All-filtered c _ h.0 rest)
        | inr it ↦ rw it (
            All-filtered
              (record c {
                quantity = shifted c.quantity delta;
                line_total = line_total c.unit_price (shifted c.quantity delta);
              })
              _ (h.0.0, refl) rest)
      ]

  All-without :
      (i index : ℕ) (cs : List CartItem) → All IsPriced cs → All IsPriced (without_index i index cs)
  All-without i index [] h = tt
  All-without i index (c ∷ cs) h =
      let rest = All-without (i + 1) index cs h.1 in
      elim (Bool-cases (i != index)) [ inl other ↦ rw other (h.0, rest) | inr it ↦ rw it rest ]

  step-IsPriced :
      (op : CartOp) (cart : List CartItem)
      → ((p : String) → first_total p ≡ line_total p 1)
      → IsListed op
      → All IsPriced cart
      → All IsPriced (step line_total first_total op cart)
  unfolding add_to_cart change_qty remove_from_cart
  step-IsPriced (add product_id item_name unit_price) cart one listed h =
      let key = get_or product_id item_name in
      elim (Bool-cases (any (has_key key) cart)) [
        | inl present ↦ rw present (All-bump key unit_price cart listed h)
        | inr absent ↦ rw absent (All-append_one cart _ h (listed, one unit_price))
      ]
  step-IsPriced (change index delta) cart one listed h = All-change index delta 0 cart h
  step-IsPriced (remove index) cart one listed h = All-without 0 index cart h
  step-IsPriced clear cart one listed h = tt

  run_from-IsPriced :
      (ops : List CartOp) (cart : List CartItem)
      → ((p : String) → first_total p ≡ line_total p 1)
      → All IsListed ops
      → All IsPriced cart
      → All IsPriced (run line_total first_total ops cart)
  run_from-IsPriced [] cart one listed h = h
  run_from-IsPriced (op ∷ ops) cart one listed h =
      run_from-IsPriced ops (step line_total first_total op cart) one listed.1
        (step-IsPriced op cart one listed.0 h)

  -- If items are added at the prices of one list, then after any sequence of the till's buttons every
  -- line has the price of the list and the total of that price and its quantity. The total of one
  -- item is taken to be that of the quantity 1.
  pub run-IsPriced :
      (ops : List CartOp)
      → ((p : String) → first_total p ≡ line_total p 1)
      → All IsListed ops
      → All IsPriced (run line_total first_total ops [])
  run-IsPriced ops one listed = run_from-IsPriced ops [] one listed tt

-- A product added again after its price has changed: the line keeps the first price, which is the one
-- sent to the backend, and shows the total at the second.
pub repriced_line :
    (line_total : String → ℕ → String) (first_total : String → String)
    (id name name' first second : String)
    → run line_total first_total (add (some id) name first ∷ add (some id) name' second ∷ []) []
      ≡ record {
        product_id = some id;
        item_name = name;
        unit_price = first;
        quantity = 2;
        line_total = line_total second 2;
      }
        ∷ []
unfolding add_to_cart
repriced_line line_total first_total id name name' first second = rw (str_eq_refl id) refl
