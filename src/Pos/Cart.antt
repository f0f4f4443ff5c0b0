-- ===== src/Pos/Cart.antt =====
-- The cart holds one line for a key, and no line without items.
use greenlink.Prelude.{
  ℕ, String, ◌≡◌, refl, ap, ◌∙◌, true, false, ◌||◌, Option, List, [], ◌∷◌, ◌++◌, ◌+◌, ◌<◌, map, any,
  any-append, if◌then◌else◌, ◌==◌, string_eq, nat_eq, arith, Bool-cases, inl, inr,
}
use greenlink.Sheet.Occupancy.{get_or}
use greenlink.Types.Pos.{CartItem}
use greenlink.Pos.{key_of, has_key, bump, add_to_cart}

-- The quantity of a key.
abbrev pub quantity_of : List CartItem → String → ℕ
quantity_of [] k = 0
quantity_of (c ∷ cs) k = (if has_key k c then c.quantity else 0) + quantity_of cs k

-- No two lines have the same key, and each has items.
abbrev pub IsCart : List CartItem → Type 0
IsCart [] = Unit
IsCart (c ∷ cs) = (0 < c.quantity) × (any (has_key (key_of c)) cs ≡ false) × IsCart cs

quantity_of-append :
    (cs : List CartItem) (c : CartItem) (k : String)
    → quantity_of (cs ++ (c ∷ [])) k ≡ quantity_of cs k + (if has_key k c then c.quantity else 0)
quantity_of-append [] c k = omega arith
quantity_of-append (d ∷ cs) c k = omega (arith, quantity_of-append cs c k)

has_key_sym : (c d : CartItem) → has_key (key_of c) d ≡ has_key (key_of d) c
has_key_sym c d =
    ground (arith, string_eq.beq_iff (key_of c) (key_of d), string_eq.beq_iff (key_of d) (key_of c))

append-IsCart :
    (cs : List CartItem) (c : CartItem)
    → IsCart cs
    → 0 < c.quantity
    → any (has_key (key_of c)) cs ≡ false
    → IsCart (cs ++ (c ∷ []))
append-IsCart [] c w q h = (q, refl, tt)
append-IsCart (d ∷ cs) c w q h =
    let other : has_key (key_of c) d ≡ false = ground (arith, h) in
    let absent : any (has_key (key_of c)) cs ≡ false = ground (arith, h) in
    (
      w.0,
      ground (arith, any-append (has_key (key_of d)) cs (c ∷ []), has_key_sym c d, other, w.1),
      append-IsCart cs c w.2 q absent,
    )

pub zero_add : (n : ℕ) → 0 + n ≡ n
zero_add n = omega arith

pub quantity_of_absent :
    (cs : List CartItem) (k : String) → any (has_key k) cs ≡ false → quantity_of cs k ≡ 0
quantity_of_absent [] k h = refl
quantity_of_absent (c ∷ cs) k h =
    let other : has_key k c ≡ false = ground (arith, h) in
    let absent : any (has_key k) cs ≡ false = ground (arith, h) in
    rw (other, quantity_of_absent cs k absent) (omega arith)

module _ (line_total : String → ℕ → String) (first_total : String → String) where
  bump-key :
      (key unit_price : String) (c : CartItem)
      → key_of (bump line_total first_total key unit_price c) ≡ key_of c
  bump-key key unit_price c = ground arith

  any-bump :
      (k key unit_price : String) (cs : List CartItem)
      → any (has_key k) (map (bump line_total first_total key unit_price) cs) ≡ any (has_key k) cs
  any-bump k key unit_price [] = refl
  any-bump k key unit_price (c ∷ cs) = elim (Bool-cases (has_key key c)) [
    | inl e ↦ rw e (ap (λ b. key_of c == k || b) (any-bump k key unit_price cs))
    | inr e ↦ rw e (ap (λ b. key_of c == k || b) (any-bump k key unit_price cs))
  ]

  bump_absent :
      (key unit_price : String) (cs : List CartItem) (k : String)
      → any (has_key key) cs ≡ false
      → quantity_of (map (bump line_total first_total key unit_price) cs) k ≡ quantity_of cs k
  bump_absent key unit_price [] k h = refl
  bump_absent key unit_price (c ∷ cs) k h =
      let other : has_key key c ≡ false = ground (arith, h) in
      let absent : any (has_key key) cs ≡ false = ground (arith, h) in
      rw other (
        ap (λ n. (if has_key k c then c.quantity else 0) + n)
          (bump_absent key unit_price cs k absent))

  bump_present :
      (key unit_price : String) (cs : List CartItem) (k : String)
      → IsCart cs
      → any (has_key key) cs ≡ true
      → quantity_of (map (bump line_total first_total key unit_price) cs) k
        ≡ quantity_of cs k + (if key == k then 1 else 0)
  bump_present key unit_price [] k w h = ground arith
  bump_present key unit_price (c ∷ cs) k w h = elim (Bool-cases (has_key key c)) [
    | inl e ↦
        let same : key_of c ≡ key = (string_eq.beq_iff (key_of c) key).0 e in
        let absent : any (has_key key) cs ≡ false = rw same at w.1 in
        rw (e, bump_absent key unit_price cs k absent, same)
          (elim (Bool-cases (key == k)) [
            | inl it ↦ rw it (omega arith)
            | inr not_it ↦ rw not_it (omega arith)
          ])
    | inr e ↦
        let present : any (has_key key) cs ≡ true = ground (arith, h, e) in
        rw e (omega (arith, bump_present key unit_price cs k w.2 present))
  ]

  bump-IsCart :
      (key unit_price : String) (cs : List CartItem)
      → IsCart cs
      → IsCart (map (bump line_total first_total key unit_price) cs)
  bump-IsCart key unit_price [] w = tt
  bump-IsCart key unit_price (c ∷ cs) w = elim (Bool-cases (has_key key c)) [
    | inl e ↦ rw e (
      omega arith,
      any-bump (key_of c) key unit_price cs ∙ w.1,
      bump-IsCart key unit_price cs w.2,
    )
    | inr e ↦
        rw e (w.0, any-bump (key_of c) key unit_price cs ∙ w.1, bump-IsCart key unit_price cs w.2)
  ]

  pub add_quantity :
      (product_id : Option String) (item_name unit_price : String) (cart : List CartItem)
      (k : String)
      → IsCart cart
      → quantity_of (add_to_cart line_total first_total product_id item_name unit_price cart) k
        ≡ quantity_of cart k + (if get_or product_id item_name == k then 1 else 0)
  unfolding add_to_cart
  add_quantity product_id item_name unit_price cart k w =
      let key = get_or product_id item_name in
      elim (Bool-cases (any (has_key key) cart)) [
        | inl present ↦ rw present (bump_present key unit_price cart k w present)
        | inr absent ↦ rw absent (quantity_of-append cart _ k)
      ]

  pub add-IsCart :
      (product_id : Option String) (item_name unit_price : String) (cart : List CartItem)
      → IsCart cart
      → IsCart (add_to_cart line_total first_total product_id item_name unit_price cart)
  unfolding add_to_cart
  add-IsCart product_id item_name unit_price cart w =
      let key = get_or product_id item_name in
      elim (Bool-cases (any (has_key key) cart)) [
        | inl present ↦ rw present (bump-IsCart key unit_price cart w)
        | inr absent ↦ rw absent (append-IsCart cart _ w (omega arith) absent)
      ]
