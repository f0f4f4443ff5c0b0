-- ===== src/Session/Runs.antt =====
-- The session over its runs: operations, answers and the events of the API client in any order.
use greenlink.Prelude.{String, ◌≡◌, true, Option, none, some, List, ◌∷◌, ◌++◌}
use greenlink.Types.Session.{SessionBootstrap, TokenResponse}
use greenlink.Move.{Outcome}
use greenlink.Api.{Failure}
use greenlink.Session.{
  Task, fetching, refreshing, refetching, Session, handle_session_expired, persist_access_token,
  load_bootstrap, effect_due, run_effect, fetched, refreshed, refetched, login, accept_invitation,
  activate_invitation, logout, refresh, change_selected_club,
}

-- The answer to a request of a chain.
pub data Answer : Type 0 where
  of_bootstrap : Outcome Failure SessionBootstrap → Answer
  of_refresh : Outcome Failure TokenResponse → Answer

-- A request goes on with the answer to what it asked for.
abbrev pub answered : Task → Answer → Session → Session
answered (fetching token club) (of_bootstrap r) s = fetched club r s
answered (refreshing club) (of_refresh r) s = refreshed club r s
answered (refetching token) (of_bootstrap r) s = refetched r s
answered _ _ s = s

abbrev pub Fits : Task → Answer → Type 0
Fits (fetching _ _) (of_bootstrap _) = Unit
Fits (refreshing _) (of_refresh _) = Unit
Fits (refetching _) (of_bootstrap _) = Unit
Fits _ _ = ⊥

-- The last two steps are the API client's, which stores a refreshed token, or clears the token and
-- ends the session, and dispatches the events.
pub data Step (s : Session) : Session → Type 0 where
  effect : effect_due s ≡ true → Step s (run_effect s)
  logs_in : (r : TokenResponse) → Step s (login r s)
  accepts : (r : TokenResponse) → Step s (accept_invitation r s)
  activates : (token : Option String) → Step s (activate_invitation token s)
  reloads : (club token : Option String) → Step s (load_bootstrap club token s)
  selects : (club token : Option String) → Step s (change_selected_club club token s)
  logs_out : Step s (logout s)
  refreshes : (r : TokenResponse) → Step s (refresh r s)
  answer :
      (before after : List Task) (task : Task) (a : Answer)
      → s.tasks ≡ before ++ (task ∷ after)
      → Fits task a
      → Step s (answered task a (record s { tasks = before ++ after }))
  client_refreshes : (token : String) → Step s (persist_access_token (some token) s)
  client_expires : Step s (handle_session_expired (persist_access_token none s))

pub data Reach (s : Session) : Session → Type 0 where
  here : Reach s s
  next : {t u : Session} → Reach s t → Step t u → Reach s u
