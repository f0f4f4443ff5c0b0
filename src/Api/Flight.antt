-- ===== src/Api/Flight.antt =====
-- frontend/src/api/client.ts, `refreshInFlight`: requests that are refused while a refresh is open
-- wait for that one.
--
-- A request is a number. `call` is refreshAccessToken() for a request, and `finish` is the open
-- refresh coming to its end, with a token, without one, or with an exception.
use greenlink.Prelude.{
  ℕ, suc, ◌+◌, ◌≤◌, ◌≡◌, Bool, true, false, Option, String, List, [], ◌∷◌, ◌++◌, map, if◌then◌else◌,
  sum, ◌==◌, nat_eq,
}
use greenlink.Move.{Outcome}
use greenlink.Api.{FetchError}

abbrev pub Refreshed : Type 0
Refreshed = Outcome FetchError (Option String)

-- `in_flight` is whether `refreshInFlight` holds a promise, `waiting` who awaits it.
pub record Flight : Type 0 where
  pub in_flight : Bool
  pub waiting : List ℕ
  pub started : ℕ
  pub settled : List (ℕ × Refreshed)

abbrev pub no_flight : Flight
no_flight = record { in_flight = false; waiting = []; started = 0; settled = [] }

unfoldable pub call : ℕ → Flight → Flight
call request f =
    if f.in_flight
    then record f { waiting = request ∷ f.waiting }
    else record f { in_flight = true; waiting = request ∷ f.waiting; started = f.started + 1 }

unfoldable pub finish : Refreshed → Flight → Flight
finish result f =
    if f.in_flight
    then record f {
      in_flight = false;
      waiting = [];
      settled = map (λ request. (request, result)) f.waiting ++ f.settled;
    }
    else f

pub data FlightEvent : Type 0 where
  calls : ℕ → FlightEvent
  finishes : Refreshed → FlightEvent

unfoldable pub play : List FlightEvent → Flight → Flight
unfolding call finish
play [] f = f
play (calls request ∷ events) f = play events (call request f)
play (finishes result ∷ events) f = play events (finish result f)

-- How many calls a request makes, and how many ends of a refresh a run has.
abbrev pub calls_of : ℕ → List FlightEvent → ℕ
calls_of k [] = 0
calls_of k (calls request ∷ events) = (if request == k then 1 else 0) + calls_of k events
calls_of k (finishes _ ∷ events) = calls_of k events

abbrev pub finishes_of : List FlightEvent → ℕ
finishes_of [] = 0
finishes_of (calls _ ∷ events) = finishes_of events
finishes_of (finishes _ ∷ events) = suc (finishes_of events)

-- How often a request waits, and how many results it has had.
abbrev pub waits : ℕ → List ℕ → ℕ
waits k waiting = sum (λ request. if request == k then 1 else 0) waiting

abbrev pub results : ℕ → List (ℕ × Refreshed) → ℕ
results k settled = sum (λ (s : ℕ × Refreshed). if s.0 == k then 1 else 0) settled

-- Requests wait exactly while a refresh is open, each call waits or has had its result, and only
-- the open refresh has not come to its end.
pub record IsSingle (f : Flight) (called : ℕ → ℕ) (finished : ℕ) : Type 0 where
  pub none_forgotten : f.in_flight ≡ false → f.waiting ≡ []
  pub each_served : (k : ℕ) → waits k f.waiting + results k f.settled ≡ called k
  pub one_open : f.started ≤ finished + (if f.in_flight then 1 else 0)
