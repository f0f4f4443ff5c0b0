-- ===== src/Pos/Lines.antt =====
-- What a change of one line does to the cart.
use mathlib.Core.Path.{subst}
use greenlink.Prelude.{
  ℕ, zero, suc, String, ◌≡◌, refl, sym, ap, ◌∙◌, true, false, Option, none, some, List, [], ◌∷◌,
  ◌+◌, ◌<◌, map_from, any, filter, if◌then◌else◌, ◌!=◌, string_eq, nat_eq, ltb, arith, Bool-cases,
  inl, inr, get_elem?,
}
use greenlink.Prelude.Int.{ℤ}
use greenlink.Types.Pos.{CartItem}
use greenlink.Pos.{key_of, has_key, shifted, is_positive, change_item, change_qty}
use greenlink.Pos.Cart.{quantity_of, IsCart, quantity_of_absent, zero_add}

module _ (line_total : String → ℕ → String) (first_total : String → String) where
  -- One line changed, and dropped where nothing is left of it.
  change_at : ℕ → ℤ → List CartItem → List CartItem
  change_at j delta [] = []
  change_at zero delta (c ∷ cs) =
      let c' = change_item line_total first_total 0 delta c 0 in
      if is_positive c' then c' ∷ cs else cs
  change_at (suc j) delta (c ∷ cs) = c ∷ change_at j delta cs

  unchanged :
      (index i : ℕ) (delta : ℤ) (cs : List CartItem)
      → index < i
      → IsCart cs
      → filter is_positive (map_from (change_item line_total first_total index delta) i cs) ≡ cs
  unchanged index i delta [] past w = refl
  unchanged index i delta (c ∷ cs) past w =
      let other : (i != index) ≡ true = ground arith in
      let kept : is_positive c ≡ true = ground (arith, w.0) in
      rw (other, kept) (ap (λ l. c ∷ l) (unchanged index (i + 1) delta cs (omega arith) w.2))

  change_from :
      (i j : ℕ) (delta : ℤ) (cs : List CartItem)
      → IsCart cs
      → filter is_positive (map_from (change_item line_total first_total (i + j) delta) i cs)
        ≡ change_at j delta cs
  unfolding change_at
  change_from i j delta [] w = refl
  change_from i zero delta (c ∷ cs) w =
      let it : (i != i + 0) ≡ false = ground arith in
      let rest = unchanged (i + 0) (i + 1) delta cs (omega arith) w.2 in rw (it, rest) refl
  change_from i (suc j) delta (c ∷ cs) w =
      let other : (i != i + suc j) ≡ true = ground arith in
      let kept : is_positive c ≡ true = ground (arith, w.0) in
      let later : i + suc j ≡ i + 1 + j = omega arith in
      rw (other, kept)
        (ap
            (λ n.
              c
              ∷ filter is_positive
                  (map_from (change_item line_total first_total n delta) (i + 1) cs))
            later
          ∙ ap (λ l. c ∷ l) (change_from (i + 1) j delta cs w.2))

  change_list :
      (index : ℕ) (delta : ℤ) (cart : List CartItem)
      → IsCart cart
      → change_qty line_total first_total index delta cart ≡ change_at index delta cart
  unfolding change_qty
  change_list index delta cart w =
      let start : index ≡ 0 + index = omega arith in
      ap (λ n. filter is_positive (map_from (change_item line_total first_total n delta) 0 cart))
        start
      ∙ change_from 0 index delta cart w

  any-change_at :
      (k : String) (j : ℕ) (delta : ℤ) (cs : List CartItem)
      → any (has_key k) cs ≡ false
      → any (has_key k) (change_at j delta cs) ≡ false
  unfolding change_at
  any-change_at k j delta [] h = refl
  any-change_at k zero delta (c ∷ cs) h = ground (arith, h)
  any-change_at k (suc j) delta (c ∷ cs) h =
      let later = any-change_at k j delta cs (ground (arith, h)) in ground (arith, h, later)

  change_at-IsCart :
      (j : ℕ) (delta : ℤ) (cs : List CartItem) → IsCart cs → IsCart (change_at j delta cs)
  unfolding change_at
  change_at-IsCart j delta [] w = tt
  change_at-IsCart zero delta (c ∷ cs) w = elim (Bool-cases (ltb 0 (shifted c.quantity delta))) [
    | inl kept ↦ rw kept (ground (arith, kept), w.1, w.2)
    | inr dropped ↦ rw dropped w.2
  ]
  change_at-IsCart (suc j) delta (c ∷ cs) w =
      (w.0, any-change_at (key_of c) j delta cs w.1, change_at-IsCart j delta cs w.2)

  pub change-IsCart :
      (index : ℕ) (delta : ℤ) (cart : List CartItem)
      → IsCart cart
      → IsCart (change_qty line_total first_total index delta cart)
  unfolding change_qty
  change-IsCart index delta cart w =
      subst IsCart (sym (change_list index delta cart w)) (change_at-IsCart index delta cart w)

  -- What the change of a line does to a quantity.
  abbrev pub adjusted : Option CartItem → ℤ → String → ℕ → ℕ
  adjusted none delta k n = n
  adjusted (some c) delta k n = if has_key k c then shifted n delta else n

  adjusted_absent :
      (cs : List CartItem) (j : ℕ) (delta : ℤ) (k : String) (n : ℕ)
      → any (has_key k) cs ≡ false
      → adjusted (get_elem? cs j) delta k n ≡ n
  adjusted_absent [] j delta k n h = refl
  adjusted_absent (c ∷ cs) zero delta k n h = ground (arith, h)
  adjusted_absent (c ∷ cs) (suc j) delta k n h = adjusted_absent cs j delta k n (ground (arith, h))

  change_at_quantity :
      (j : ℕ) (delta : ℤ) (cs : List CartItem) (k : String)
      → IsCart cs
      → quantity_of (change_at j delta cs) k ≡ adjusted (get_elem? cs j) delta k (quantity_of cs k)
  unfolding change_at
  change_at_quantity j delta [] k w = refl
  change_at_quantity zero delta (c ∷ cs) k w = elim (Bool-cases (has_key k c)) [
    | inl mine ↦
        let nothing =
          quantity_of_absent cs k (rw ((string_eq.beq_iff (key_of c) k).0 mine) at w.1) in
        elim (Bool-cases (ltb 0 (shifted c.quantity delta))) [
          | inl kept ↦ rw (kept, mine, nothing) (omega arith)
          | inr dropped ↦ rw (dropped, mine, nothing) (ground (arith, dropped))
        ]
    | inr other ↦ elim (Bool-cases (ltb 0 (shifted c.quantity delta))) [
      | inl kept ↦ rw (kept, other) refl
      | inr dropped ↦ rw (dropped, other) (omega arith)
    ]
  ]
  change_at_quantity (suc j) delta (c ∷ cs) k w =
      let later = change_at_quantity j delta cs k w.2 in
      elim (Bool-cases (has_key k c)) [
        | inl mine ↦
            let absent : any (has_key k) cs ≡ false =
              rw ((string_eq.beq_iff (key_of c) k).0 mine) at w.1 in
            let same = adjusted_absent cs j delta k in
            rw
              (
                mine,
                later,
                same (quantity_of cs k) absent,
                same (c.quantity + quantity_of cs k) absent,
              )
              refl
        | inr other ↦
            rw
              (
                other,
                later,
                zero_add (adjusted (get_elem? cs j) delta k (quantity_of cs k)),
                zero_add (quantity_of cs k),
              )
              refl
      ]

  pub change_quantity :
      (index : ℕ) (delta : ℤ) (cart : List CartItem) (k : String)
      → IsCart cart
      → quantity_of (change_qty line_total first_total index delta cart) k
        ≡ adjusted (get_elem? cart index) delta k (quantity_of cart k)
  change_quantity index delta cart k w =
      ap (λ l. quantity_of l k) (change_list index delta cart w)
      ∙ change_at_quantity index delta cart k w
