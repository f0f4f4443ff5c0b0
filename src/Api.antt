-- ===== src/Api.antt =====
-- frontend/src/api/client.ts and frontend/src/auth/token-storage.ts: requests to the backend, the
-- fallback between local backends, and the one refresh of an expired token.
--
-- The network is a parameter: what it answers may depend on all that was sent before. The state is
-- the browser's: the stored token and club, the base address in use, and, newest first, what was
-- sent and which events were dispatched. A request here runs alone; `Api/Flight` has requests that
-- wait for one refresh together.
mod Message
pub use Message.{extract_error_message}
pub mod Retry
pub mod Fallback
pub mod Flight
pub mod Locks
use greenlink.Prelude.{
  ℕ, String, Bool, true, false, ◌&&◌, ◌||◌, not, Option, none, some, List, [], ◌∷◌, map,
  if◌then◌else◌, ◌==◌, ◌!=◌, string_eq, nat_eq, leb, any, filter,
}
use greenlink.Prelude.Text.{◌++ₛ◌, truthy, is_set, is_blank}
use greenlink.Types.Json.{Json, null, str, get_field, member, as_text, first_item, last_item}
use greenlink.Sheet.Occupancy.{get_or, or_else}
use greenlink.Move.{Outcome, ok, err}

pub data RequestBody : Type 0 where
  no_body form_data : RequestBody
  text : String → RequestBody

-- The names of headers are in lower case, as `Headers` keeps them.
pub record Request : Type 0 where
  pub method : String
  pub headers : List (String × String)
  pub body : RequestBody

pub record RequestOptions : Type 0 where
  pub request : Request
  pub access_token : Option String
  pub selected_club_id : Option String

pub record Sent : Type 0 where
  pub base_url : String
  pub path : String
  pub request : Request

-- A body is none where it is no JSON.
pub record Response : Type 0 where
  pub status : ℕ
  pub body : Option Json

-- An exception of `fetch`: a TypeError, or another one.
pub data FetchError : Type 0 where
  type_error other_error : String → FetchError

pub data Failure : Type 0 where
  api_error : ℕ → String → Option Json → Failure
  thrown : FetchError → Failure

pub data StorageEvent : Type 0 where
  token_changed : Option String → StorageEvent
  session_expired : StorageEvent

pub record Browser : Type 0 where
  pub access_token : Option String
  pub selected_club_id : Option String
  pub resolved_api_base_url : String
  pub sent : List Sent
  pub events : List StorageEvent

unfoldable pub set_access_token : Option String → Browser → Browser
set_access_token token b = record b {
  access_token = token;
  events = token_changed token ∷ b.events;
}

unfoldable pub set_selected_club_id : Option String → Browser → Browser
set_selected_club_id club_id b = record b { selected_club_id = club_id }

unfoldable pub emit_session_expired : Browser → Browser
emit_session_expired b = record b { events = session_expired ∷ b.events }

-- response.ok
abbrev pub is_ok : ℕ → Bool
is_ok status = leb 200 status && leb status 299

abbrev pub get_header : String → List (String × String) → Option String
get_header name [] = none
get_header name ((key, value) ∷ headers) =
    if key == name then some value else get_header name headers

abbrev pub has_header : String → List (String × String) → Bool
has_header name headers = any (λ h. h.0 == name) headers

abbrev pub set_header : String → String → List (String × String) → List (String × String)
set_header name value headers = (name, value) ∷ filter (λ h. h.0 != name) headers

abbrev set_if : String → String → Option String → List (String × String) → List (String × String)
set_if name prefix value headers =
    if is_set value then set_header name (prefix ++ₛ get_or value "") headers else headers

abbrev is_form_data : RequestBody → Bool
is_form_data form_data = true
is_form_data _ = false

-- The request that `apiRequest` sends, given its token and its club.
unfoldable pub with_headers : Option String → Option String → Request → Request
with_headers token club request =
    let headers =
      if not (is_form_data request.body) && not (has_header "content-type" request.headers)
      then set_header "content-type" "application/json" request.headers
      else request.headers in
    record request {
      headers = set_if "x-club-id" "" club (set_if "authorization" "Bearer " token headers);
    }

-- What `URL` tells of an address.
pub record Url : Type 0 where
  pub hostname : String
  pub port : String

abbrev pub refresh_path : String
refresh_path = "/api/auth/refresh"

abbrev pub is_auth_path : String → Bool
is_auth_path path = path == "/api/auth/login" || path == "/api/auth/logout" || path == refresh_path

abbrev pub refresh_request : Request
refresh_request = record {
  method = "POST";
  headers = ("content-type", "application/json") ∷ [];
  body = no_body;
}

-- The environment: `appEnv`, whether there is a window, the reading of an address (none where
-- `URL` throws), an address on another port, and the network.
pub record Env : Type 0 where
  pub app_env : String
  pub has_window : Bool
  pub parse_url : String → Option Url
  pub with_port : String → String → String
  pub fetch : List Sent → Sent → Outcome FetchError Response

module _ (env : Env) where
  open env use {app_env, has_window, parse_url, with_port, fetch}

  abbrev local_bases : String → Option Url → List String
  local_bases base_url none = base_url ∷ []
  local_bases base_url (some url) =
      if url.hostname == "localhost" || url.hostname == "127.0.0.1"
      then base_url
        ∷ map (with_port base_url) (filter (λ port. url.port != port) ("8000" ∷ "8001" ∷ []))
      else base_url ∷ []

  unfoldable pub build_local_api_base_candidates : String → List String
  build_local_api_base_candidates base_url =
      if app_env != "development" || not has_window
      then base_url ∷ []
      else local_bases base_url (parse_url base_url)

  -- The loop over the candidates, with the TypeError of the last one that failed.
  pub fetch_each :
      FetchError → List String → String → Request → Browser → Outcome FetchError Response × Browser
  fetch_each last [] path request b = (err last, b)
  fetch_each last (base ∷ bases) path request b =
      let sent : Sent = record { base_url = base; path = path; request = request } in
      let b' = record b { sent = sent ∷ b.sent } in
      elim (fetch b.sent sent) [
        | ok response ↦ (ok response, record b' { resolved_api_base_url = base })
        | err (type_error m) ↦ fetch_each (type_error m) bases path request b'
        | err (other_error m) ↦ (err (other_error m), b')
      ]

  unfoldable pub fetch_with_api_base_fallback :
      String → Request → Browser → Outcome FetchError Response × Browser
  unfolding fetch_each build_local_api_base_candidates
  fetch_with_api_base_fallback path request b =
      fetch_each (type_error "Failed to fetch")
        (build_local_api_base_candidates b.resolved_api_base_url) path request b

  -- `setAccessToken` of the token that a refresh brings: a null one removes the token, and an absent
  -- one stores "undefined". A token that is neither is a text, as its type says.
  abbrev renewed : Option Json → Browser → Outcome FetchError (Option String) × Browser
  renewed (some (str token)) b = (ok (some token), set_access_token (some token) b)
  renewed (some null) b = (ok none, set_access_token none b)
  renewed _ b = (ok none, set_access_token (some "undefined") b)

  abbrev refreshed : Option Json → Browser → Outcome FetchError (Option String) × Browser
  refreshed none b = (err (other_error "no JSON"), b)
  refreshed (some null) b = (err (type_error "no members"), b)
  refreshed (some body) b = renewed (member "access_token" (some body)) b

  abbrev refresh_answer :
      Outcome FetchError Response → Browser → Outcome FetchError (Option String) × Browser
  refresh_answer (err e) b = (err e, b)
  refresh_answer (ok response) b =
      if is_ok response.status
      then refreshed response.body b
      else (ok none, emit_session_expired (set_access_token none b))

  unfoldable pub refresh_access_token : Browser → Outcome FetchError (Option String) × Browser
  unfolding fetch_with_api_base_fallback set_access_token emit_session_expired
  refresh_access_token b =
      let (r, b') = fetch_with_api_base_fallback refresh_path refresh_request b in
      refresh_answer r b'

  -- What `apiRequest` returns of a response that is not refreshed: none for 204.
  abbrev pub settled : Response → Outcome Failure (Option Json)
  settled response =
      if not (is_ok response.status)
      then err (api_error response.status (extract_error_message response.body) response.body)
      else if response.status == 204
      then ok none
      else elim response.body [
        | none ↦ err (thrown (other_error "no JSON"))
        | some json ↦ ok (some json)
      ]

  abbrev pub club_of : RequestOptions → Browser → Option String
  club_of options b = or_else options.selected_club_id b.selected_club_id

  abbrev pub send : String → RequestOptions → Browser → Outcome FetchError Response × Browser
  send path options b =
      fetch_with_api_base_fallback path
        (with_headers (or_else b.access_token options.access_token) (club_of options b)
          options.request)
        b

  abbrev first_or_error :
      Outcome FetchError Response → Browser → Outcome Failure (Option Json) × Browser
  first_or_error (err e) b = (err (thrown e), b)
  first_or_error (ok response) b = (settled response, b)

  -- apiRequest(path, options, false)
  unfoldable pub api_request_once :
      String → RequestOptions → Browser → Outcome Failure (Option Json) × Browser
  unfolding fetch_with_api_base_fallback with_headers extract_error_message
  api_request_once path options b = let (r, b') = send path options b in first_or_error r b'

  abbrev retried :
      String
      → RequestOptions
      → Option String
      → Outcome FetchError (Option String) × Browser
      → Outcome Failure (Option Json) × Browser
  retried path options club (err e, b) = (err (thrown e), b)
  retried path options club (ok token, b) =
      if is_set token
      then api_request_once path (record options { access_token = token; selected_club_id = club })
          b
      else (err (api_error 401 "Session expired. Please sign in again." none), b)

  abbrev answered :
      String
      → RequestOptions
      → Option String
      → Outcome FetchError Response
      → Browser
      → Outcome Failure (Option Json) × Browser
  answered path options club (err e) b = (err (thrown e), b)
  answered path options club (ok response) b =
      if response.status == 401 && not (is_auth_path path)
      then retried path options club (refresh_access_token b)
      else (settled response, b)

  -- apiRequest(path, options)
  unfoldable pub api_request :
      String → RequestOptions → Browser → Outcome Failure (Option Json) × Browser
  unfolding fetch_with_api_base_fallback with_headers extract_error_message refresh_access_token
      api_request_once
  api_request path options b =
      let (r, b') = send path options b in answered path options (club_of options b) r b'
