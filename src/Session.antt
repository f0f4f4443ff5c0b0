-- ===== src/Session.antt =====
-- frontend/src/session/session-provider.tsx: the session of the browser.
--
-- The state is that of the provider with the two stored values and the requests that wait for an
-- answer. An answer is an argument of the function that continues the request. The two chains of
-- requests, of the effect and of `loadBootstrap`, do the same and are one here.
pub mod Guard
pub mod Runs
pub mod Settled
pub mod Ends
pub mod Stuck
use greenlink.Prelude.{
  ℕ, String, Bool, true, false, not, Option, none, some, List, [], ◌∷◌, if◌then◌else◌, ◌==◌, ◌!=◌,
  string_eq, nat_eq, option_eq,
}
use greenlink.Prelude.Text.{is_set}
use greenlink.Types.Session.{SessionBootstrap, TokenResponse}
use greenlink.Move.{Outcome, ok, err}
use greenlink.Api.{Failure, api_error, thrown}

-- The request that an open chain waits for: the bootstrap, the refresh behind a 401, or the
-- bootstrap with the refreshed token.
pub data Task : Type 0 where
  fetching : String → Option String → Task
  refreshing : Option String → Task
  refetching : String → Task

-- `effect_token` is the token for which the effect ran last, if it ran.
pub record Session : Type 0 where
  pub access_token : Option String
  pub bootstrap : Option SessionBootstrap
  pub loading : Bool
  pub initialized : Bool
  pub stored_token : Option String
  pub stored_club : Option String
  pub effect_token : Option (Option String)
  pub tasks : List Task

-- The first render.
abbrev pub opened : Option String → Option String → Session
opened token club = record {
  access_token = token;
  bootstrap = none;
  loading = false;
  initialized = false;
  stored_token = token;
  stored_club = club;
  effect_token = none;
  tasks = [];
}

unfoldable pub handle_token_changed : Session → Session
handle_token_changed s =
    if is_set s.stored_token then record s { access_token = s.stored_token } else record s {
      access_token = s.stored_token;
      bootstrap = none;
      loading = false;
      initialized = true;
    }

unfoldable pub handle_session_expired : Session → Session
handle_session_expired s = record s {
  access_token = none;
  bootstrap = none;
  loading = false;
  initialized = true;
}

-- `setAccessToken` of token-storage.ts, which dispatches the event
unfoldable pub persist_access_token : Option String → Session → Session
unfolding handle_token_changed
persist_access_token token s = handle_token_changed (record s { stored_token = token })

unfoldable pub set_access_token : Option String → Session → Session
unfolding persist_access_token
set_access_token token s = persist_access_token token (record s { access_token = token })

unfoldable pub expire_session : Session → Session
unfolding persist_access_token handle_session_expired
expire_session s =
    let cleared = persist_access_token none s in
    handle_session_expired (record cleared {
      stored_club = none;
      access_token = none;
      bootstrap = none;
      loading = false;
      initialized = true;
    })

unfoldable pub load_bootstrap : Option String → Option String → Session → Session
load_bootstrap club none s = record s { initialized = true }
load_bootstrap club (some token) s =
    if is_set (some token)
    then record s { loading = true; tasks = fetching token club ∷ s.tasks }
    else record s { initialized = true }

-- The effect runs behind a render in which the token has changed.
abbrev pub effect_due : Session → Bool
effect_due s = s.effect_token != some s.access_token

unfoldable pub run_effect : Session → Session
unfolding load_bootstrap
run_effect s =
    load_bootstrap s.stored_club s.access_token (record s { effect_token = some s.access_token })

abbrev pub is_unauthorized : Failure → Bool
is_unauthorized (api_error status _ _) = status == 401
is_unauthorized (thrown _) = false

abbrev pub set_bootstrap : SessionBootstrap → Session → Session
set_bootstrap loaded s = record s { bootstrap = some loaded; initialized = true; loading = false }

abbrev pub give_up : Failure → Session → Session
give_up error s =
    if is_unauthorized error
    then record (expire_session s) { loading = false }
    else record s { loading = false }

-- The answers to the requests of a chain.
unfoldable pub fetched : Option String → Outcome Failure SessionBootstrap → Session → Session
fetched club (ok bootstrap) s = set_bootstrap bootstrap s
fetched club (err error) s =
    if is_unauthorized error
    then record s { tasks = refreshing club ∷ s.tasks }
    else record s { loading = false }

unfoldable pub refreshed : Option String → Outcome Failure TokenResponse → Session → Session
unfolding set_access_token expire_session
refreshed club (ok result) s =
    let s' = set_access_token (some result.access_token) s in
    record s' { tasks = refetching result.access_token ∷ s'.tasks }
refreshed club (err error) s = give_up error s

unfoldable pub refetched : Outcome Failure SessionBootstrap → Session → Session
unfolding expire_session
refetched (ok bootstrap) s = set_bootstrap bootstrap s
refetched (err error) s = give_up error s

-- The answers to the operations of the context.
unfoldable pub login : TokenResponse → Session → Session
unfolding set_access_token load_bootstrap
login result s =
    load_bootstrap s.stored_club (some result.access_token)
      (set_access_token (some result.access_token) s)

unfoldable pub accept_invitation : TokenResponse → Session → Session
unfolding set_access_token load_bootstrap
accept_invitation result s =
    load_bootstrap s.stored_club (some result.access_token)
      (set_access_token (some result.access_token) s)

-- `token` is the token of the render in which the operation was called.
unfoldable pub activate_invitation : Option String → Session → Session
unfolding load_bootstrap
activate_invitation token s = load_bootstrap s.stored_club token s

unfoldable pub logout : Session → Session
unfolding set_access_token
logout s =
    let s' = set_access_token none s in
    record s' { bootstrap = none; stored_club = none; initialized = true }

unfoldable pub refresh : TokenResponse → Session → Session
unfolding set_access_token
refresh result s = set_access_token (some result.access_token) s

unfoldable pub change_selected_club : Option String → Option String → Session → Session
unfolding load_bootstrap
change_selected_club club token s = load_bootstrap club token (record s { stored_club = club })
