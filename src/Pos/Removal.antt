-- ===== src/Pos/Removal.antt =====
-- What the removal of one line does to the cart.
use mathlib.Core.Path.{subst}
use greenlink.Prelude.{
  ℕ, zero, suc, String, ◌≡◌, refl, sym, ap, ◌∙◌, true, false, Option, none, some, List, [], ◌∷◌,
  ◌+◌, ◌<◌, any, if◌then◌else◌, ◌!=◌, string_eq, nat_eq, arith, Bool-cases, inl, inr, get_elem?,
}
use greenlink.Types.Pos.{CartItem}
use greenlink.Pos.{key_of, has_key, without_index, remove_from_cart}
use greenlink.Pos.Cart.{quantity_of, IsCart, quantity_of_absent, zero_add}

-- What the removal of a line does to a quantity.
abbrev pub removed : Option CartItem → String → ℕ → ℕ
removed none k n = n
removed (some c) k n = if has_key k c then 0 else n

remove_at : ℕ → List CartItem → List CartItem
remove_at j [] = []
remove_at zero (c ∷ cs) = cs
remove_at (suc j) (c ∷ cs) = c ∷ remove_at j cs

unremoved : (index i : ℕ) (cs : List CartItem) → index < i → without_index i index cs ≡ cs
unremoved index i [] past = refl
unremoved index i (c ∷ cs) past =
    let other : (i != index) ≡ true = ground arith in
    rw other (ap (λ l. c ∷ l) (unremoved index (i + 1) cs (omega arith)))

remove_from : (i j : ℕ) (cs : List CartItem) → without_index i (i + j) cs ≡ remove_at j cs
unfolding remove_at
remove_from i j [] = refl
remove_from i zero (c ∷ cs) =
    let it : (i != i + 0) ≡ false = ground arith in
    rw it (unremoved (i + 0) (i + 1) cs (omega arith))
remove_from i (suc j) (c ∷ cs) =
    let other : (i != i + suc j) ≡ true = ground arith in
    let later : i + suc j ≡ i + 1 + j = omega arith in
    rw other
      (ap (λ n. c ∷ without_index (i + 1) n cs) later ∙ ap (λ l. c ∷ l) (remove_from (i + 1) j cs))

remove_list :
    (index : ℕ) (cart : List CartItem) → remove_from_cart index cart ≡ remove_at index cart
unfolding remove_from_cart
remove_list index cart =
    let start : index ≡ 0 + index = omega arith in
    ap (λ n. without_index 0 n cart) start ∙ remove_from 0 index cart

any-remove_at :
    (k : String) (j : ℕ) (cs : List CartItem)
    → any (has_key k) cs ≡ false
    → any (has_key k) (remove_at j cs) ≡ false
unfolding remove_at
any-remove_at k j [] h = refl
any-remove_at k zero (c ∷ cs) h = ground (arith, h)
any-remove_at k (suc j) (c ∷ cs) h =
    let later = any-remove_at k j cs (ground (arith, h)) in ground (arith, h, later)

remove_at-IsCart : (j : ℕ) (cs : List CartItem) → IsCart cs → IsCart (remove_at j cs)
unfolding remove_at
remove_at-IsCart j [] w = tt
remove_at-IsCart zero (c ∷ cs) w = w.2
remove_at-IsCart (suc j) (c ∷ cs) w =
    (w.0, any-remove_at (key_of c) j cs w.1, remove_at-IsCart j cs w.2)

pub remove-IsCart :
    (index : ℕ) (cart : List CartItem) → IsCart cart → IsCart (remove_from_cart index cart)
remove-IsCart index cart w =
    subst IsCart (sym (remove_list index cart)) (remove_at-IsCart index cart w)

removed_absent :
    (cs : List CartItem) (j : ℕ) (k : String) (n : ℕ)
    → any (has_key k) cs ≡ false
    → removed (get_elem? cs j) k n ≡ n
removed_absent [] j k n h = refl
removed_absent (c ∷ cs) zero k n h = ground (arith, h)
removed_absent (c ∷ cs) (suc j) k n h = removed_absent cs j k n (ground (arith, h))

remove_at_quantity :
    (j : ℕ) (cs : List CartItem) (k : String)
    → IsCart cs
    → quantity_of (remove_at j cs) k ≡ removed (get_elem? cs j) k (quantity_of cs k)
unfolding remove_at
remove_at_quantity j [] k w = refl
remove_at_quantity zero (c ∷ cs) k w = elim (Bool-cases (has_key k c)) [
  | inl mine ↦
      let nothing = quantity_of_absent cs k (rw ((string_eq.beq_iff (key_of c) k).0 mine) at w.1) in
      rw (mine, nothing) refl
  | inr other ↦ rw other (omega arith)
]
remove_at_quantity (suc j) (c ∷ cs) k w =
    let later = remove_at_quantity j cs k w.2 in
    elim (Bool-cases (has_key k c)) [
      | inl mine ↦
          let absent : any (has_key k) cs ≡ false =
            rw ((string_eq.beq_iff (key_of c) k).0 mine) at w.1 in
          rw
            (
              mine,
              later,
              removed_absent cs j k (quantity_of cs k) absent,
              removed_absent cs j k (c.quantity + quantity_of cs k) absent,
            )
            refl
      | inr other ↦
          rw
            (
              other,
              later,
              zero_add (removed (get_elem? cs j) k (quantity_of cs k)),
              zero_add (quantity_of cs k),
            )
            refl
    ]

pub remove_quantity :
    (index : ℕ) (cart : List CartItem) (k : String)
    → IsCart cart
    → quantity_of (remove_from_cart index cart) k
      ≡ removed (get_elem? cart index) k (quantity_of cart k)
remove_quantity index cart k w =
    ap (λ l. quantity_of l k) (remove_list index cart) ∙ remove_at_quantity index cart k w
