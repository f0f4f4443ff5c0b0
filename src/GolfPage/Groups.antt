-- ===== src/GolfPage/Groups.antt =====
-- Two idioms of frontend/src/pages/admin-golf-tee-sheet-page.tsx: the grouping of items into a Map
-- of lists by a key, and the sort by a comparator.
use greenlink.Prelude.{
  ℕ, ◌+◌, ◌≤◌, ◌≡◌, refl, sym, arith, String, Bool, false, ◌||◌, List, [], ◌∷◌, ◌++◌, if◌then◌else◌,
  ◌==◌, string_eq, any, sum, All, any-append, eq_iff, Bool-cases, inl, inr,
}
use greenlink.Prelude.Int.{ℤ, pos, leb_ℤ}

-- The list of one key, which is not empty.
pub record Group {ℓ} (A : Type ℓ) : Type ℓ where
  pub group_key : String
  pub first : A
  pub rest : List A

module _ {A : Type 0} (key : A → String) where
  pub insert_group : A → List (Group A) → List (Group A)
  insert_group a [] = record { group_key = key a; first = a; rest = [] } ∷ []
  insert_group a (g ∷ gs) =
      let later = insert_group a gs in
      if g.group_key == key a then record g { rest = g.rest ++ (a ∷ []) } ∷ gs else g ∷ later

  -- `group` finds the lists of the keys in the order in which the keys come up first.
  pub groups_from : List (Group A) → List A → List (Group A)
  groups_from gs [] = gs
  groups_from gs (a ∷ items) = groups_from (insert_group a gs) items

  unfoldable pub group : List A → List (Group A)
  unfolding insert_group groups_from
  group items = groups_from [] items

  abbrev pub members : Group A → List A
  members g = g.first ∷ g.rest

  abbrev pub times : String → List (Group A) → ℕ
  times k gs = sum (λ g. if g.group_key == k then 1 else 0) gs

  -- Every member has the key of its group.
  abbrev pub IsGroup : Group A → Type 0
  IsGroup g = All (λ a. key a ≡ g.group_key) (members g)

  All-snoc : (P : A → Type 0) (xs : List A) (a : A) → All P xs → P a → All P (xs ++ (a ∷ []))
  All-snoc P [] a h p = (p, tt)
  All-snoc P (x ∷ xs) a (h, hs) p = (h, All-snoc P xs a hs p)

  insert_group-IsGroup :
      (a : A) (gs : List (Group A)) → All IsGroup gs → All IsGroup (insert_group a gs)
  unfolding insert_group
  insert_group-IsGroup a [] h = ((refl, tt), tt)
  insert_group-IsGroup a (g ∷ gs) ((f, r), hs) = elim (Bool-cases (g.group_key == key a)) [
    | inl same ↦ rw same (
      (
        f,
        All-snoc (λ x. key x ≡ g.group_key) g.rest a r (sym ((eq_iff g.group_key (key a)).0 same)),
      ),
      hs,
    )
    | inr other ↦ rw other ((f, r), insert_group-IsGroup a gs hs)
  ]

  pub groups_from-IsGroup :
      (gs : List (Group A)) (items : List A) → All IsGroup gs → All IsGroup (groups_from gs items)
  unfolding groups_from
  groups_from-IsGroup gs [] h = h
  groups_from-IsGroup gs (a ∷ items) h =
      groups_from-IsGroup (insert_group a gs) items (insert_group-IsGroup a gs h)

  insert_group-times :
      (k : String) (a : A) (gs : List (Group A))
      → times k (insert_group a gs) ≡ (
          if any (λ g. g.group_key == key a) gs
          then times k gs
          else times k gs + (if key a == k then 1 else 0))
  unfolding insert_group
  insert_group-times k a [] = ground arith
  insert_group-times k a (g ∷ gs) = ground (arith, insert_group-times k a gs)

  absent-times :
      (k : String) (gs : List (Group A)) → any (λ g. g.group_key == k) gs ≡ false → times k gs ≡ 0
  absent-times k [] h = refl
  absent-times k (g ∷ gs) h = ground (arith, absent-times k gs)

  insert_once :
      (a : A) (gs : List (Group A))
      → ((k : String) → times k gs ≤ 1)
      → (k : String) → times k (insert_group a gs) ≤ 1
  insert_once a gs h k =
      ground (
        arith,
        insert_group-times k a gs,
        absent-times (key a) gs,
        eq_iff (key a) k,
        h k,
        h (key a),
      )

  pub groups_once :
      (gs : List (Group A)) (items : List A)
      → ((k : String) → times k gs ≤ 1)
      → (k : String) → times k (groups_from gs items) ≤ 1
  unfolding groups_from
  groups_once gs [] h k = h k
  groups_once gs (a ∷ items) h k = groups_once (insert_group a gs) items (insert_once a gs h) k

  abbrev pub in_groups : (A → Bool) → List (Group A) → Bool
  in_groups p gs = any (λ g. any p (members g)) gs

  insert_group-any :
      (p : A → Bool) (a : A) (gs : List (Group A))
      → in_groups p (insert_group a gs) ≡ (p a || in_groups p gs)
  unfolding insert_group
  insert_group-any p a [] = ground arith
  insert_group-any p a (g ∷ gs) =
      ground (arith, insert_group-any p a gs, any-append p g.rest (a ∷ []))

  pub groups_from-any :
      (p : A → Bool) (gs : List (Group A)) (items : List A)
      → in_groups p (groups_from gs items) ≡ (in_groups p gs || any p items)
  unfolding groups_from
  groups_from-any p gs [] = ground arith
  groups_from-any p gs (a ∷ items) =
      ground (arith, groups_from-any p (insert_group a gs) items, insert_group-any p a gs)

-- items.sort(compare), which is stable
module _ {A : Type 0} (compare : A → A → ℤ) where
  pub insert_sorted : A → List A → List A
  insert_sorted a [] = a ∷ []
  insert_sorted a (x ∷ xs) =
      let later = insert_sorted a xs in
      if leb_ℤ (compare a x) (pos 0) then a ∷ x ∷ xs else x ∷ later

  unfoldable pub sort : List A → List A
  unfolding insert_sorted
  sort [] = []
  sort (a ∷ items) = insert_sorted a (sort items)

  insert_sorted-sum :
      (f : A → ℕ) (a : A) (xs : List A) → sum f (insert_sorted a xs) ≡ f a + sum f xs
  unfolding insert_sorted
  insert_sorted-sum f a [] = refl
  insert_sorted-sum f a (x ∷ xs) = ground (arith, insert_sorted-sum f a xs)

  pub sum-sort : (f : A → ℕ) (items : List A) → sum f (sort items) ≡ sum f items
  unfolding sort
  sum-sort f [] = refl
  sum-sort f (a ∷ items) = omega (arith, insert_sorted-sum f a (sort items), sum-sort f items)

  insert_sorted-any :
      (p : A → Bool) (a : A) (xs : List A) → any p (insert_sorted a xs) ≡ (p a || any p xs)
  unfolding insert_sorted
  insert_sorted-any p a [] = refl
  insert_sorted-any p a (x ∷ xs) = ground (arith, insert_sorted-any p a xs)

  pub any-sort : (p : A → Bool) (items : List A) → any p (sort items) ≡ any p items
  unfolding sort
  any-sort p [] = refl
  any-sort p (a ∷ items) = ground (arith, insert_sorted-any p a (sort items), any-sort p items)
