-- ===== src/Swap/Protocol.antt =====
-- The swap as a protocol: what each state says of the two moves, whatever the answers and their
-- order. The hook starts a new swap at any time, also while a request of an earlier one is open; a
-- configuration notes whether that has happened, and Drop/Exchange has what follows then.
use mathlib.Core.Path.{subst}
use greenlink.Prelude.{
  ◌≡◌, refl, sym, ◌∙◌, Bool, true, false, ◌||◌, Option, none, some, arith, Option-cases, inl, inr,
}
use greenlink.Types.Booking.{BookingMoveResult}
use greenlink.Types.TeeSheet.{TeeSheetRow}
use greenlink.Move.{MoveError}
use greenlink.Swap.{
  SwapInput, SwapState, idle, first_pending, second_pending, succeeded, partial_failure_first,
  partial_failure_second, rejected_target_row_full, restoring, restore_failed, restored, Request,
  move_a, move_b, restore_a, request_variables, Hook, initial, initiate, retry_second,
  restore_first, reset_hook, on_success, on_failure,
}

-- The hook, what the backend has done for the swap at hand, and whether a swap was started while a
-- request was open.
pub record Config : Type 0 where
  pub hook : Hook
  pub a_moved : Bool
  pub b_moved : Bool
  pub overlapped : Bool

abbrev pub start_config : Config
start_config = record { hook = initial; a_moved = false; b_moved = false; overlapped = false }

abbrev pub is_open : Option Request → Bool
is_open none = false
is_open (some r) = true

-- The backend's side of a request that succeeds.
abbrev pub answered : Request → Config → BookingMoveResult → Config
answered (move_a input) c result = record c {
  hook = on_success (move_a input) result c.hook;
  a_moved = true;
}
answered (move_b input) c result = record c {
  hook = on_success (move_b input) result c.hook;
  b_moved = true;
}
answered (restore_a input first) c result = record c {
  hook = on_success (restore_a input first) result c.hook;
  a_moved = false;
}

pub data Step (c : Config) : Config → Type 0 where
  begin :
      (input : SwapInput) (row : TeeSheetRow)
      → Step c (record {
        hook = initiate input row c.hook;
        a_moved = false;
        b_moved = false;
        overlapped = c.overlapped || is_open c.hook.pending;
      })
  retry : Step c (record c { hook = retry_second c.hook })
  restore : Step c (record c { hook = restore_first c.hook })
  clear : Step c (record c { hook = reset_hook c.hook })
  success :
      (r : Request) (result : BookingMoveResult)
      → c.hook.pending ≡ some r
      → Step c (answered r c result)
  failure :
      (r : Request) (error : MoveError)
      → c.hook.pending ≡ some r
      → Step c (record c { hook = on_failure r error c.hook })

pub data Reach (c : Config) : Config → Type 0 where
  here : Reach c c
  next : {d e : Config} → Reach c d → Step d e → Reach c e

-- What a state says of the two moves.
abbrev pub Says : SwapState → Bool → Bool → Type 0
Says idle a b = Unit
Says (first_pending _) a b = (a ≡ false) × (b ≡ false)
Says (second_pending _ _) a b = (a ≡ true) × (b ≡ false)
Says (succeeded _) a b = (a ≡ true) × (b ≡ true)
Says (partial_failure_first _ _) a b = (a ≡ false) × (b ≡ false)
Says (partial_failure_second _ _ _) a b = (a ≡ true) × (b ≡ false)
Says (rejected_target_row_full _) a b = (a ≡ false) × (b ≡ false)
Says (restoring _ _) a b = (a ≡ true) × (b ≡ false)
Says (restore_failed _ _ _) a b = (a ≡ true) × (b ≡ false)
Says (restored _) a b = (a ≡ false) × (b ≡ false)

-- The open request fits the state, or the state has been cleared. With no open request the state
-- waits for none.
abbrev pub Waits : Option Request → SwapState → Type 0
Waits none (first_pending _) = ⊥
Waits none (second_pending _ _) = ⊥
Waits none (restoring _ _) = ⊥
Waits none _ = Unit
Waits (some (move_a i)) idle = Unit
Waits (some (move_a i)) (first_pending j) = i ≡ j
Waits (some (move_a i)) _ = ⊥
Waits (some (move_b i)) idle = Unit
Waits (some (move_b i)) (second_pending j _) = i ≡ j
Waits (some (move_b i)) _ = ⊥
Waits (some (restore_a i r)) idle = Unit
Waits (some (restore_a i r)) (restoring j s) = (i ≡ j) × (r ≡ s)
Waits (some (restore_a i r)) _ = ⊥

-- What the backend has done before it answers the open request.
abbrev pub Before : Option Request → Bool → Bool → Type 0
Before none a b = Unit
Before (some (move_a _)) a b = (a ≡ false) × (b ≡ false)
Before (some (move_b _)) a b = (a ≡ true) × (b ≡ false)
Before (some (restore_a _ _)) a b = (a ≡ true) × (b ≡ false)

pub record IsConsistent (c : Config) : Type 0 where
  pub says : Says c.hook.state c.a_moved c.b_moved
  pub waits : Waits c.hook.pending c.hook.state
  pub before : Before c.hook.pending c.a_moved c.b_moved

begin-IsConsistent :
    (c : Config) (input : SwapInput) (row : TeeSheetRow)
    → c.hook.pending ≡ none
    → IsConsistent (record {
      hook = initiate input row c.hook;
      a_moved = false;
      b_moved = false;
      overlapped = c.overlapped || is_open c.hook.pending;
    })
unfolding initiate
begin-IsConsistent c input row h = ground arith

none_open : (c : Config) → (c.overlapped || is_open c.hook.pending) ≡ false → c.hook.pending ≡ none
none_open c h = elim (Option-cases c.hook.pending) [
  | inl closed ↦ closed
  | inr (r, busy) ↦
      let open_one : is_open c.hook.pending ≡ true = rw busy refl in
      absurd (ground (arith, open_one))
]

answered-overlapped :
    (r : Request) (c : Config) (result : BookingMoveResult)
    → (answered r c result).overlapped ≡ c.overlapped
answered-overlapped (move_a i) c result = refl
answered-overlapped (move_b i) c result = refl
answered-overlapped (restore_a i r) c result = refl

retry-IsConsistent :
    (s : SwapState) (p : Option Request) (a b o : Bool)
    → IsConsistent (record {
      hook = record { state = s; pending = p };
      a_moved = a;
      b_moved = b;
      overlapped = o;
    })
    → IsConsistent (record {
      hook = retry_second (record { state = s; pending = p });
      a_moved = a;
      b_moved = b;
      overlapped = o;
    })
unfolding retry_second
retry-IsConsistent (partial_failure_second i r e) p a b o h = record {
  says = h.says;
  waits = refl;
  before = h.says;
}
retry-IsConsistent s p a b o h = h

restore-IsConsistent :
    (s : SwapState) (p : Option Request) (a b o : Bool)
    → IsConsistent (record {
      hook = record { state = s; pending = p };
      a_moved = a;
      b_moved = b;
      overlapped = o;
    })
    → IsConsistent (record {
      hook = restore_first (record { state = s; pending = p });
      a_moved = a;
      b_moved = b;
      overlapped = o;
    })
unfolding restore_first
restore-IsConsistent (partial_failure_second i r e) p a b o h = record {
  says = h.says;
  waits = (refl, refl);
  before = h.says;
}
restore-IsConsistent s p a b o h = h

clear-IsConsistent :
    (p : Option Request) (c : Config)
    → c.hook.pending ≡ p
    → IsConsistent c
    → IsConsistent (record c { hook = reset_hook c.hook })
unfolding reset_hook
clear-IsConsistent none c e h = ground arith
clear-IsConsistent (some (move_a i)) c e h = ground arith
clear-IsConsistent (some (move_b i)) c e h = ground arith
clear-IsConsistent (some (restore_a i r)) c e h = ground arith

success-IsConsistent :
    (r : Request) (result : BookingMoveResult) (c : Config)
    → c.hook.pending ≡ some r
    → IsConsistent c
    → IsConsistent (answered r c result)
unfolding on_success
success-IsConsistent (move_a i) result c e h = ground arith
success-IsConsistent (move_b i) result c e h = ground arith
success-IsConsistent (restore_a i r) result c e h = ground arith

failure-IsConsistent :
    (r : Request) (error : MoveError) (s : SwapState) (a b o : Bool)
    → IsConsistent (record {
      hook = record { state = s; pending = some r };
      a_moved = a;
      b_moved = b;
      overlapped = o;
    })
    → IsConsistent (record {
      hook = on_failure r error (record { state = s; pending = some r });
      a_moved = a;
      b_moved = b;
      overlapped = o;
    })
unfolding on_failure
failure-IsConsistent (move_a i) error s a b o h = record {
  says = h.before;
  waits = tt;
  before = tt;
}
failure-IsConsistent (move_b i) error idle a b o h = record { says = tt; waits = tt; before = tt }
failure-IsConsistent (move_b i) error (second_pending j r) a b o h = record {
  says = h.says;
  waits = tt;
  before = tt;
}
failure-IsConsistent (move_b i) error s a b o h = absurd h.waits
failure-IsConsistent (restore_a i r) error idle a b o h = record {
  says = tt;
  waits = tt;
  before = tt;
}
failure-IsConsistent (restore_a i r) error (restoring j t) a b o h = record {
  says = h.says;
  waits = tt;
  before = tt;
}
failure-IsConsistent (restore_a i r) error s a b o h = absurd h.waits

-- A step from a configuration that is consistent, unless it has started a swap too early, with none
-- before it.
Step-IsConsistent :
    {c d : Config}
    → Step c d
    → (c.overlapped ≡ false → IsConsistent c)
    → d.overlapped ≡ false
    → IsConsistent d
Step-IsConsistent {c} (begin input row) h o = begin-IsConsistent c input row (none_open c o)
Step-IsConsistent {c} retry h o =
    retry-IsConsistent c.hook.state c.hook.pending c.a_moved c.b_moved c.overlapped (h o)
Step-IsConsistent {c} restore h o =
    restore-IsConsistent c.hook.state c.hook.pending c.a_moved c.b_moved c.overlapped (h o)
Step-IsConsistent {c} clear h o = clear-IsConsistent c.hook.pending c refl (h o)
Step-IsConsistent {c} (success r result e) h o =
    success-IsConsistent r result c e (h (sym (answered-overlapped r c result) ∙ o))
Step-IsConsistent {c} (failure r error e) h o =
    let hook : Hook = record { state = c.hook.state; pending = some r } in
    let same : hook ≡ c.hook = λ i. record { state = c.hook.state; pending = sym e i } in
    let calm = h o in
    subst (λ k. IsConsistent (record c { hook = on_failure r error k })) same
      (failure-IsConsistent r error c.hook.state c.a_moved c.b_moved c.overlapped
        (record { says = calm.says; waits = rw e at calm.waits; before = rw e at calm.before }))

-- Whatever the buttons and the answers and their order, as long as no swap is started while a
-- request of an earlier one is open, the state tells which of the two moves the backend has made,
-- unless it was cleared, and it waits for an answer exactly while the fitting request is open.
pub Reach-IsConsistent : {c : Config} → Reach start_config c → c.overlapped ≡ false → IsConsistent c
Reach-IsConsistent here o = record { says = tt; waits = tt; before = tt }
Reach-IsConsistent (next r s) o = Step-IsConsistent s (Reach-IsConsistent r) o

-- The two ways to end a swap that stopped half-way.
pub record CanEnd (input : SwapInput) (first : BookingMoveResult) (c : Config) : Type 0 where
  pub retried :
      (result : BookingMoveResult)
      → (on_success (move_b input) result (retry_second c.hook)).state ≡ succeeded input
  pub retry_open : (retry_second c.hook).pending ≡ some (move_b input)
  pub taken_back :
      (result : BookingMoveResult)
      → (on_success (restore_a input first) result (restore_first c.hook)).state ≡ restored input
  pub restore_open : (restore_first c.hook).pending ≡ some (restore_a input first)
  pub reverse_target :
      (request_variables (restore_a input first)).target_slot_datetime
      ≡ (request_variables (move_a input)).source_slot_datetime
  pub reverse_source :
      (request_variables (restore_a input first)).source_slot_datetime
      ≡ (request_variables (move_a input)).target_slot_datetime
  pub same_participant :
      (request_variables (restore_a input first)).participant_id
      ≡ (request_variables (move_a input)).participant_id

-- A swap that stopped half-way can be ended: the retry, answered well, completes it, and the restore,
-- answered well, takes the first move back: it moves A from where the first move brought it to
-- where it was.
pub partial_failure_second-CanEnd :
    (input : SwapInput) (first : BookingMoveResult) (error : MoveError) (c : Config)
    → c.hook.state ≡ partial_failure_second input first error
    → CanEnd input first c
unfolding retry_second restore_first on_success request_variables
partial_failure_second-CanEnd input first error c e = record {
  retried = λ result. refl;
  retry_open = ground arith;
  taken_back = λ result. refl;
  restore_open = ground arith;
  reverse_target = refl;
  reverse_source = refl;
  same_participant = refl;
}

-- If the state is cleared while the second request is open and that request fails, nothing shows
-- that the first move was made: the hook is back in its initial configuration.
pub half_swap_forgotten :
    (c : Config) (input : SwapInput) (error : MoveError)
    → Reach start_config c
    → c.overlapped ≡ false
    → c.hook.pending ≡ some (move_b input)
    → (on_failure (move_b input) error (reset_hook c.hook) ≡ initial)
      × (c.a_moved ≡ true)
      × (c.b_moved ≡ false)
unfolding on_failure reset_hook
half_swap_forgotten c input error r o e =
    let says : Before (some (move_b input)) c.a_moved c.b_moved =
      rw e at (Reach-IsConsistent r o).before in
    (refl, says.0, says.1)
