-- ===== src/GolfPage/Focus/First.antt =====
-- What the drawer shows of its slot.
use greenlink.Prelude.{
  ℕ, zero, suc, ◌+◌, ◌≤◌, ◌≡◌, refl, sym, ap, ◌∙◌, arith, String, Bool, Option, none, some, List,
  [], ◌∷◌, if◌then◌else◌, ◌==◌, ◌!=◌, string_eq, sum, filter, get_elem?, map_from, nat_eq,
  Bool-cases, Option-cases, inl, inr,
}
use greenlink.Types.Booking.{BookingParticipantSummary}
use greenlink.Types.TeeSheet.{TeeSheetBookingView}
use greenlink.Sheet.Occupancy.{normalize_optimistic_participants}
use greenlink.BookingMove.{LaneSlot}
use greenlink.GolfPage.Drawer.{ExpandedBookingContext, matches_expanded_booking}
use greenlink.GolfPage.Focus.{
  index_where, without_nth, focused_index, focus_at, focused_booking, focused_first, focus_bookings,
  focus_slot,
}

-- How often a display name occurs in the bookings of one id.
abbrev pub seats : String → String → List TeeSheetBookingView → ℕ
seats id name bs =
    sum
      (λ b.
        if b.id == id then sum (λ p. if p.display_name == name then 1 else 0) b.participants else 0)
      bs

sum-without_nth :
    {A : Type 0} (f : A → ℕ) (i : ℕ) (xs : List A) (x : A)
    → get_elem? xs i ≡ some x
    → f x + sum f (without_nth i xs) ≡ sum f xs
sum-without_nth f i [] x e = cc
sum-without_nth f zero (y ∷ ys) x e = let same : y ≡ x = cc in rw same refl
sum-without_nth f (suc i) (y ∷ ys) x e = omega (arith, sum-without_nth f i ys x e)

-- How often an id occurs.
abbrev pub occurs : String → List TeeSheetBookingView → ℕ
occurs id bs = sum (λ b. if b.id == id then 1 else 0) bs

sum-filter_absent :
    (f : TeeSheetBookingView → ℕ) (id : String) (bs : List TeeSheetBookingView)
    → occurs id bs ≡ 0
    → sum f (filter (λ b. b.id != id) bs) ≡ sum f bs
sum-filter_absent f id [] h = refl
sum-filter_absent f id (b ∷ bs) h = ground (arith, sum-filter_absent f id bs)

some-inj : {A : Type 0} {a b : A} → some a ≡ some b → a ≡ b
some-inj e = cc

-- The booking of an id that occurs once, and the others.
sum-extract :
    (f : TeeSheetBookingView → ℕ) (id : String) (bs : List TeeSheetBookingView) (i : ℕ)
    (x : TeeSheetBookingView)
    → occurs id bs ≤ 1
    → index_where (λ b. b.id == id) bs ≡ some i
    → get_elem? bs i ≡ some x
    → f x + sum f (filter (λ b. b.id != id) bs) ≡ sum f bs
sum-extract f id [] i x h e g = cc
sum-extract f id (b ∷ bs) i x h e g = elim (Bool-cases (b.id == id)) [
  | inl same ↦
      let zeroth : some 0 ≡ some i = rw same at e in
      let here : get_elem? (b ∷ bs) 0 ≡ some x = rw (sym (some-inj zeroth)) at g in
      let is : b ≡ x = some-inj here in
      let gone = sum-filter_absent f id bs (omega (arith, rw same at h)) in
      rw same (omega (arith, ap f is, gone))
  | inr other ↦ elim (Option-cases (index_where (λ c. c.id == id) bs)) [
    | inl absent ↦ let no_index : none ≡ some i = rw (other, absent) at e in absurd cc
    | inr (j, later) ↦
        let next : some (j + 1) ≡ some i = rw (other, later) at e in
        let at_j : i ≡ suc j = omega (arith, some-inj next) in
        let there : get_elem? bs j ≡ some x = rw at_j at g in
        rw other (
          omega (
            arith,
            rw other at h,
            sum-extract f id bs j x (omega (arith, rw other at h)) later there,
          ))
  ]
]

sum-normalize :
    (f : BookingParticipantSummary → ℕ)
    → ((p : BookingParticipantSummary) (o : Option ℕ) (q : Bool)
        → f (record p { sort_order = o; is_primary = q }) ≡ f p)
    → (i : ℕ) (ps : List BookingParticipantSummary)
    → sum f (
        map_from {A = BookingParticipantSummary} {B = BookingParticipantSummary}
          (λ p index. record p { is_primary = index == 0; sort_order = some index })
          i
          ps)
      ≡ sum f ps
sum-normalize f h i [] = refl
sum-normalize f h i (p ∷ ps) = omega (arith, h p (some i) (i == 0), sum-normalize f h (i + 1) ps)

abbrev named : String → BookingParticipantSummary → ℕ
named name p = if p.display_name == name then 1 else 0

named-focus_at :
    (name : String) (o : Option ℕ) (ps : List BookingParticipantSummary)
    → sum (named name) (focus_at o ps) ≡ sum (named name) ps
unfolding normalize_optimistic_participants
named-focus_at name none ps = refl
named-focus_at name (some zero) ps = refl
named-focus_at name (some (suc i)) ps = elim (Option-cases (get_elem? ps (suc i))) [
  | inl past ↦
      let as_it_was : focus_at (some (suc i)) ps ≡ ps = rw (focus_at, past) refl in
      ap (sum (named name)) as_it_was
  | inr (p, there) ↦
      let put_first : focus_at (some (suc i)) ps
          ≡ normalize_optimistic_participants (p ∷ without_nth (suc i) ps) =
        rw (focus_at, there) refl in
      ap (sum (named name)) put_first
      ∙ (sum-normalize (named name) (λ q o b. refl) 0 (p ∷ without_nth (suc i) ps)
          ∙ sum-without_nth (named name) (suc i) ps p there)
]

abbrev seat_of : String → String → TeeSheetBookingView → ℕ
seat_of id name b = if b.id == id then sum (named name) b.participants else 0

seat_of-focused :
    (id name : String) (context : ExpandedBookingContext) (b : TeeSheetBookingView)
    → seat_of id name (focused_booking context b) ≡ seat_of id name b
unfolding focused_booking
seat_of-focused id name context b =
    ap (λ n. if b.id == id then n else 0)
      (named-focus_at name (focused_index context b) b.participants)

sum-focused_first :
    (f : TeeSheetBookingView → ℕ) (context : ExpandedBookingContext) (i : ℕ)
    (x : TeeSheetBookingView) (bs : List TeeSheetBookingView)
    → ((b : TeeSheetBookingView) → f (focused_booking context b) ≡ f b)
    → (occurs context.booking_id bs ≤ 1)
      × (index_where (λ b. b.id == context.booking_id) bs ≡ some i)
      × (get_elem? bs i ≡ some x)
    → sum f (focused_first context i x bs) ≡ sum f bs
sum-focused_first f context zero x [] h (one, found, there) = cc
sum-focused_first f context zero x (b ∷ bs) h (one, found, there) =
    let is : b ≡ x = some-inj there in omega (arith, h x, ap f is)
sum-focused_first f context (suc i) x bs h (one, found, there) =
    omega (arith, h x, sum-extract f context.booking_id bs (suc i) x one found there)

sum-focus_bookings :
    (f : TeeSheetBookingView → ℕ) (context : ExpandedBookingContext) (bs : List TeeSheetBookingView)
    → ((b : TeeSheetBookingView) → f (focused_booking context b) ≡ f b)
    → occurs context.booking_id bs ≤ 1
    → sum f (focus_bookings context bs) ≡ sum f bs
sum-focus_bookings f context bs h one =
    elim (Option-cases (index_where (λ b. b.id == context.booking_id) bs)) [
      | inl absent ↦
          let as_it_was : focus_bookings context bs ≡ bs = rw (focus_bookings, absent) refl in
          ap (sum f) as_it_was
      | inr (i, found) ↦ elim (Option-cases (get_elem? bs i)) [
        | inl past ↦
            let as_it_was : focus_bookings context bs ≡ bs =
              rw (focus_bookings, found, past) refl in
            ap (sum f) as_it_was
        | inr (x, there) ↦
            let put_first : focus_bookings context bs ≡ focused_first context i x bs =
              rw (focus_bookings, found, there) refl in
            ap (sum f) put_first ∙ sum-focused_first f context i x bs h (one, found, there)
      ]
    ]

-- The slot that the drawer shows has the bookings of the slot, each once as before, with every
-- player that they had, where the id of the expanded booking stands once among them; the slot
-- stands where it stood.
pub focus_slot-Kept :
    (context : ExpandedBookingContext) (slot : LaneSlot) (id name : String)
    → occurs context.booking_id slot.slot.bookings ≤ 1
    → (let shown = focus_slot (some context) slot in
        (occurs id shown.slot.bookings ≡ occurs id slot.slot.bookings)
        × (seats id name shown.slot.bookings ≡ seats id name slot.slot.bookings)
        × (shown.start_lane ≡ slot.start_lane)
        × (shown.slot.slot_datetime ≡ slot.slot.slot_datetime))
unfolding focus_slot
focus_slot-Kept context slot id name one =
    elim (Bool-cases (matches_expanded_booking (some context) slot context.booking_id)) [
      | inl match ↦ rw match (
        sum-focus_bookings (λ b. if b.id == id then 1 else 0) context slot.slot.bookings
            (unfold focused_booking in λ b. refl) one,
        sum-focus_bookings (seat_of id name) context slot.slot.bookings
            (seat_of-focused id name context) one,
        refl,
        refl,
      )
      | inr elsewhere ↦ rw elsewhere (refl, refl, refl, refl)
    ]
