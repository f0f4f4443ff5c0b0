-- ===== src/Tests/Api.antt =====
-- The API client against a backend that answers one refresh.
use greenlink.Prelude.{refl, true, none, some, [], if◌then◌else◌, ◌==◌, string_eq}
use greenlink.Prelude.Text.{◌++ₛ◌}
use greenlink.Types.Json.{str, obj, end, field}
use greenlink.Move.{Outcome, ok, err}
use greenlink.Api.{
  Env, Browser, Sent, Response, RequestOptions, FetchError, type_error, no_body, api_request,
  fetch_with_api_base_fallback,
}
use greenlink.Api.Retry.{Rounds, api_request-Rounds}
use greenlink.Api.Fallback.{Recovers, api_request-Recovers}

abbrev granted : Response
granted = record { status = 200; body = some (obj (field "access_token" (str "new") end)) }

abbrev refusal : Response
refusal = record { status = 401; body = none }

-- The local backend listens on the second port. It refuses all but a refresh.
abbrev answer_of : Sent → Outcome FetchError Response
answer_of sent =
    if sent.base_url == "http://localhost:8001"
    then (if sent.path == "/api/auth/refresh" then ok granted else ok refusal)
    else err (type_error "Failed to fetch")

abbrev local_env : Env
local_env = record {
  app_env = "development";
  has_window = true;
  parse_url = λ base. some (record { hostname = "localhost"; port = "8000" });
  with_port = λ base port. "http://localhost:" ++ₛ port;
  fetch = λ earlier sent. answer_of sent;
}

abbrev get : RequestOptions
get = record {
  request = record { method = "GET"; headers = []; body = no_body };
  access_token = none;
  selected_club_id = some "club";
}

abbrev signed_in : Browser
signed_in = record {
  access_token = some "old";
  selected_club_id = none;
  resolved_api_base_url = "http://localhost:8000";
  sent = [];
  events = [];
}

api_request-Rounds_example :
    Rounds local_env "/api/golf" [] (api_request local_env "/api/golf" get signed_in).1.sent
api_request-Rounds_example = api_request-Rounds local_env "/api/golf" get signed_in

api_request-Recovers_example : Recovers local_env "/api/golf" get signed_in granted
unfolding fetch_with_api_base_fallback
api_request-Recovers_example =
    api_request-Recovers local_env "/api/golf" get signed_in refusal granted refl refl refl refl
