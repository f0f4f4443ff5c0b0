-- ===== src/GolfPage/Batch/Counted.antt =====
-- The requests of a batch, and what its notice counts.
use text.Mathlib.TextLemmas.{append_assoc}
use greenlink.Prelude.{
  ap, sym, false, some, ◌⊎◌, ℕ, ◌+◌, ◌≤◌, ◌≡◌, refl, ◌∙◌, arith, String, Bool, true, ◌&&◌, Option,
  List, [], ◌∷◌, map, if◌then◌else◌, ◌==◌, string_eq, any, sum, All, length, length-map, eq_iff,
  Bool-cases, inl, inr, not, ltb, lt→ltb, suc,
}
use greenlink.Prelude.Int.{ℤ}
use greenlink.Types.TeeSheet.{TeeSheetBookingView}
use greenlink.Sheet.Status.{Action, no_show}
use greenlink.Prelude.Text.{◌++ₛ◌, show}
use greenlink.GolfPage.Feedback.{Notice}
use greenlink.Move.{ok, err, is_allowed}
use greenlink.Filters.{no_shows}
use greenlink.GolfPage.Slots.{Bucket}
use greenlink.GolfPage.Batch.{
  bucket_bookings, seen_id, qualifies, unseen, batch_no_show_bookings, Settled, failures_of,
  successes, already_processed, no_show_notice, answers, handle_batch_no_show,
}

-- Every request of a batch is counted once, as done, as already done or as failed.
settled_count :
    (action : Action) (settled : List Settled)
    → successes settled + already_processed settled + length (failures_of action settled)
      ≡ length settled
unfolding failures_of
settled_count action [] = omega arith
settled_count action (err reason ∷ settled) = omega (arith, settled_count action settled)
settled_count action (ok result ∷ settled) = elim (Bool-cases (is_allowed result.decision)) [
  | inl done ↦ elim (Bool-cases result.transition_applied) [
    | inl now ↦ rw (done, now) (omega (arith, settled_count action settled))
    | inr before ↦ rw (done, before) (omega (arith, settled_count action settled))
  ]
  | inr refused ↦ rw refused (omega (arith, settled_count action settled))
]

-- How an answer counts.
pub data Result : Type 0 where
  updated processed failed : Result

abbrev pub result_of : Settled → Result
result_of (err reason) = failed
result_of (ok result) =
    if is_allowed result.decision
    then if result.transition_applied then updated else processed
    else failed

abbrev pub result_beq : Result → Result → Bool
result_beq updated updated = true
result_beq processed processed = true
result_beq failed failed = true
result_beq _ _ = false

abbrev pub tally : Result → List Settled → ℕ
tally which settled = sum (λ r. if result_beq (result_of r) which then 1 else 0) settled

tally_lem :
    (action : Action) (settled : List Settled)
    → (successes settled ≡ tally updated settled)
      × (already_processed settled ≡ tally processed settled)
      × (length (failures_of action settled) ≡ tally failed settled)
unfolding failures_of
tally_lem action [] = (refl, refl, refl)
tally_lem action (err reason ∷ settled) =
    let (a, b, c) = tally_lem action settled in
    (omega (arith, a), omega (arith, b), omega (arith, c))
tally_lem action (ok result ∷ settled) =
    let (a, b, c) = tally_lem action settled in
    elim (Bool-cases (is_allowed result.decision)) [
      | inl done ↦ elim (Bool-cases result.transition_applied) [
        | inl now ↦ rw (done, now) (omega (arith, a), omega (arith, b), omega (arith, c))
        | inr before ↦ rw (done, before) (omega (arith, a), omega (arith, b), omega (arith, c))
      ]
      | inr refused ↦ rw refused (omega (arith, a), omega (arith, b), omega (arith, c))
    ]

-- A notice of the batch that prints the counts of the answers, with any text behind them.
abbrev pub IsReport : List Settled → Notice → Type 0
IsReport settled notice =
    (rest : String) × (notice.message
      ≡ "Batch No-Show finished. "
        ++ₛ show (tally updated settled)
        ++ₛ " updated, "
        ++ₛ show (tally failed settled)
        ++ₛ " failed, "
        ++ₛ show (tally processed settled)
        ++ₛ " already processed."
        ++ₛ rest)

assoc3 : (a b c x : String) → (a ++ₛ b ++ₛ c) ++ₛ x ≡ a ++ₛ b ++ₛ c ++ₛ x
assoc3 a b c x = append_assoc a (b ++ₛ c) x ∙ ap (λ r. a ++ₛ r) (append_assoc b c x)

report_lem :
    (settled : List Settled) (failures : List String)
    → successes settled ≡ tally updated settled
    → already_processed settled ≡ tally processed settled
    → length failures ≡ tally failed settled
    → IsReport settled (no_show_notice settled failures)
unfolding show
report_lem settled [] u p f = (
  "",
  rw (u, p, sym f)
      (ap (λ r. "Batch No-Show finished. " ++ₛ show (tally updated settled) ++ₛ r)
        (assoc3 " updated, " "0" " failed, "
          (show (tally processed settled) ++ₛ " already processed."))),
)
report_lem settled (failure ∷ failures) u p f = (
  " " ++ₛ failure,
  rw (u, p, sym f)
      (ap
        (λ r.
          "Batch No-Show finished. "
          ++ₛ show (tally updated settled)
          ++ₛ " updated, "
          ++ₛ show (length (failure ∷ failures))
          ++ₛ " failed, "
          ++ₛ show (tally processed settled)
          ++ₛ r)
        (append_assoc " already processed." " " failure)),
)

abbrev pub occurs : String → List TeeSheetBookingView → ℕ
occurs id bs = sum (λ b. if b.id == id then 1 else 0) bs

module _ (date_parse : String → Option ℤ) (reference : Option String) where
  unseen-qualify :
      (seen : List String) (bs : List TeeSheetBookingView)
      → All (λ b. qualifies date_parse reference b ≡ true) (unseen date_parse reference seen bs)
  unfolding unseen
  unseen-qualify seen [] = tt
  unseen-qualify seen (b ∷ bs) = elim (Bool-cases (seen_id b.id seen)) [
    | inl old ↦ rw old (unseen-qualify seen bs)
    | inr fresh ↦ elim (Bool-cases (qualifies date_parse reference b)) [
      | inl late ↦ rw (fresh, late) (late, unseen-qualify (b.id ∷ seen) bs)
      | inr not_late ↦ rw (fresh, not_late) (unseen-qualify seen bs)
    ]
  ]

  unseen-once :
      (seen : List String) (bs : List TeeSheetBookingView) (id : String)
      → occurs id (unseen date_parse reference seen bs) + (if seen_id id seen then 1 else 0) ≤ 1
  unfolding unseen
  unseen-once seen [] id = ground arith
  unseen-once seen (b ∷ bs) id =
      ground (arith, unseen-once seen bs id, unseen-once (b.id ∷ seen) bs id, eq_iff b.id id)

  unseen-any :
      (seen : List String) (bs : List TeeSheetBookingView) (id : String)
      → any (λ b. b.id == id) (unseen date_parse reference seen bs)
        ≡ (not (seen_id id seen) && any (λ b. b.id == id && qualifies date_parse reference b) bs)
  unfolding unseen
  unseen-any seen [] id = ground arith
  unseen-any seen (b ∷ bs) id =
      ground (arith, unseen-any seen bs id, unseen-any (b.id ∷ seen) bs id, eq_iff b.id id)

  requested_lem :
      (answer : String → Settled) (o : Bool) (bs : List TeeSheetBookingView)
      → (handle_batch_no_show true answer o bs).requested ≡ map (λ b. b.id) bs
  unfolding handle_batch_no_show
  requested_lem answer o [] = refl
  requested_lem answer o (b ∷ bs) =
      let some_late : ltb 0 (suc (length bs)) ≡ true = lt→ltb 0 (suc (length bs)) (omega arith) in
      rw some_late refl

  noticed :
      (answer : String → Settled) (o : Bool) (bs : List TeeSheetBookingView)
      → (bs ≡ [])
        ⊎ ((n : Notice) × ((handle_batch_no_show true answer o bs).notice ≡ some n)
            × IsReport (answers true answer bs) n)
  unfolding handle_batch_no_show
  noticed answer o [] = inl refl
  noticed answer o (b ∷ bs) =
      let settled = answers true answer (b ∷ bs) in
      let some_late : ltb 0 (suc (length bs)) ≡ true = lt→ltb 0 (suc (length bs)) (omega arith) in
      let (u, p, f) = tally_lem no_show settled in
      inr (
        no_show_notice settled (failures_of no_show settled),
        rw some_late refl,
        report_lem settled (failures_of no_show settled) u p f,
      )

  -- The batch of no-shows asks once for each booking that the late filter shows, that is at risk
  -- and reserved, and for no other, whatever slots and columns list it. Where it asks for any, its
  -- notice prints how many answers applied the change, how many were refused or lost, and how many
  -- had it before, in this order, and the three add up to the number of requests.
  pub batch_no_show_bookings_lem :
      (filtered_buckets : List Bucket) (answer : String → Settled) (confirm_open : Bool)
      (id : String)
      → (let batch = batch_no_show_bookings date_parse reference no_shows filtered_buckets in
          let settled = answers true answer batch in
          ((handle_batch_no_show true answer confirm_open batch).requested ≡ map (λ b. b.id) batch)
          × (occurs id batch ≤ 1)
          × (any (λ b. b.id == id) batch
              ≡ any
                  (λ b. b.id == id && qualifies date_parse reference b)
                  (bucket_bookings filtered_buckets))
          × All (λ b. qualifies date_parse reference b ≡ true) batch
          × ((batch ≡ [])
              ⊎ ((n : Notice) × ((handle_batch_no_show true answer confirm_open batch).notice
                    ≡ some n)
                  × IsReport settled n))
          × (tally updated settled + tally failed settled + tally processed settled ≡ length batch))
  unfolding batch_no_show_bookings
  batch_no_show_bookings_lem buckets answer o id =
      let bs = bucket_bookings buckets in
      let batch = unseen date_parse reference [] bs in
      (
        requested_lem answer o batch,
        omega (arith, unseen-once [] bs id),
        unseen-any [] bs id,
        unseen-qualify [] bs,
        noticed answer o batch,
        (let (u, p, f) = tally_lem no_show (answers true answer batch) in
            omega (
              arith,
              u,
              p,
              f,
              settled_count no_show (answers true answer batch),
              length-map (λ b. answer b.id) batch,
            )),
      )
