-- ===== src/Api/Fallback.antt =====
-- Which base address a request settles on, and what a refresh leads to.
use text.Mathlib.TextLemmas.{nil-append}
use greenlink.Prelude.{
  ◌+◌, String, ◌≡◌, inl, inr, refl, ap, ◌∙◌, true, false, Option, none, some, List, [], ◌∷◌, arith,
  ◌==◌, string_eq, nat_eq, length, Bool-cases, any, str_eq_refl, ◌++◌, ◌≤◌, All, sym, subst,
  length-append,
}
use greenlink.Prelude.Text.{◌++ₛ◌, truthy, is_set}
use greenlink.Sheet.Occupancy.{or_else}
use greenlink.Types.Json.{Json, str, obj, as_text, member}
use greenlink.Move.{Outcome, ok, err}
use greenlink.Api.{
  Env, Browser, Sent, Request, RequestOptions, Response, FetchError, type_error, other_error,
  api_error, token_changed, session_expired, is_auth_path, refresh_path, refresh_request, is_ok,
  get_header, with_headers, first_or_error, fetch_each, build_local_api_base_candidates,
  fetch_with_api_base_fallback, refresh_access_token, send, club_of, api_request_once, api_request,
  refresh_answer, renewed, refreshed, answered, retried, set_access_token, emit_session_expired,
}
use greenlink.Api.Retry.{Fetch-cases, once-Extends, once-more}

-- A candidate that answered: the one kept, and the one that the last request went to.
abbrev pub Answered : List String → Browser → Type 0
Answered bases b = any (λ base. base == b.resolved_api_base_url) bases ≡ true

-- What a round over the candidates leaves.
abbrev pub Leaves : List String → Browser → Outcome FetchError Response × Browser → Type 0
Leaves bases b (ok response, b') =
    Answered bases b' × (b'.access_token ≡ b.access_token) × (b'.events ≡ b.events)
Leaves bases b (err (type_error m), b') =
    (b'.resolved_api_base_url ≡ b.resolved_api_base_url)
    × (length b'.sent ≡ length b.sent + length bases)
    × (b'.events ≡ b.events)
Leaves bases b (err (other_error m), b') =
    (b'.resolved_api_base_url ≡ b.resolved_api_base_url) × (b'.events ≡ b.events)

module _ (env : Env) where
  Leaves-later :
      (base : String) (bases : List String) (s : Sent) (b : Browser)
      (out : Outcome FetchError Response × Browser)
      → Leaves bases (record b { sent = s ∷ b.sent }) out
      → Leaves (base ∷ bases) b out
  Leaves-later base bases s b (ok response, b') h = (ground (arith, h.0), h.1, h.2)
  Leaves-later base bases s b (err (type_error m), b') h = (h.0, omega (arith, h.1), h.2)
  Leaves-later base bases s b (err (other_error m), b') h = h

  fetch_each-Leaves :
      (m : String) (bases : List String) (path : String) (request : Request) (b : Browser)
      → Leaves bases b (fetch_each env (type_error m) bases path request b)
  unfolding fetch_each
  fetch_each-Leaves m [] path request b = (refl, omega arith, refl)
  fetch_each-Leaves m (base ∷ bases) path request b =
      let s : Sent = record { base_url = base; path = path; request = request } in
      elim (Fetch-cases (env.fetch b.sent s)) [
        | inl (r, e) ↦ rw (e, fetch_each, Leaves) (ground (arith, str_eq_refl base), refl, refl)
        | inr (inl (n, e)) ↦
            rw (e, fetch_each)
              (Leaves-later base bases s b
                (fetch_each env (type_error n) bases path request (record b { sent = s ∷ b.sent }))
                (fetch_each-Leaves n bases path request (record b { sent = s ∷ b.sent })))
        | inr (inr (n, e)) ↦ rw (e, fetch_each, Leaves) (refl, refl)
      ]

  -- A request that is answered keeps the candidate that answered as the base of the next one. One
  -- that fails keeps the base as it was, and fails with a TypeError only when every candidate was
  -- tried. No session event is dispatched either way.
  pub fetch_with_api_base_fallback-Leaves :
      (path : String) (request : Request) (b : Browser)
      → Leaves
          (build_local_api_base_candidates env b.resolved_api_base_url)
          b
          (fetch_with_api_base_fallback env path request b)
  unfolding fetch_with_api_base_fallback
  fetch_with_api_base_fallback-Leaves path request b =
      fetch_each-Leaves "Failed to fetch"
        (build_local_api_base_candidates env b.resolved_api_base_url) path request b

  -- A round over the candidates changes neither the token nor the events.
  fetch_each-kept :
      (last : FetchError) (bases : List String) (path : String) (request : Request) (b : Browser)
      → let b' = (fetch_each env last bases path request b).1 in
        (b'.access_token ≡ b.access_token) × (b'.events ≡ b.events)
  unfolding fetch_each
  fetch_each-kept last [] path request b = (refl, refl)
  fetch_each-kept last (base ∷ bases) path request b =
      let s : Sent = record { base_url = base; path = path; request = request } in
      elim (Fetch-cases (env.fetch b.sent s)) [
        | inl (r, e) ↦ rw (e, fetch_each) (refl, refl)
        | inr (inl (n, e)) ↦
            rw (e, fetch_each)
              (fetch_each-kept (type_error n) bases path request (record b { sent = s ∷ b.sent }))
        | inr (inr (n, e)) ↦ rw (e, fetch_each) (refl, refl)
      ]

  first_or_error-id :
      (o : Outcome FetchError Response) (b : Browser) → (first_or_error env o b).1 ≡ b
  first_or_error-id (ok r) b = refl
  first_or_error-id (err e) b = refl

  once-kept :
      (path : String) (options : RequestOptions) (b : Browser)
      → let b' = (api_request_once env path options b).1 in
        (b'.access_token ≡ b.access_token) × (b'.events ≡ b.events)
  unfolding api_request_once fetch_with_api_base_fallback
  once-kept path options b =
      let (o, b') = send env path options b in
      let kept =
        fetch_each-kept (type_error "Failed to fetch")
          (build_local_api_base_candidates env b.resolved_api_base_url) path _ b in
      (
        ap (λ x. x.access_token) (first_or_error-id o b') ∙ kept.0,
        ap (λ x. x.events) (first_or_error-id o b') ∙ kept.1,
      )

  with_headers-bearer :
      (t : String) (club : Option String) (request : Request)
      → truthy t ≡ true
      → get_header "authorization" (with_headers (some t) club request).headers
        ≡ some ("Bearer " ++ₛ t)
  unfolding with_headers
  with_headers-bearer t club request h = elim (Bool-cases (is_set club)) [
    | inl set ↦ rw (h, set) refl
    | inr unset ↦ rw (h, unset) refl
  ]

  with_headers-club :
      (t : String) (club other : Option String) (request : Request)
      → is_set club ≡ true
      → get_header "x-club-id" (with_headers (some t) (or_else club other) request).headers ≡ club
  unfolding with_headers
  with_headers-club t none other request h = absurd cc
  with_headers-club t (some c) other request h = rw h (ap some (nil-append c))

  renewed-token :
      (o : Option Json) (t : String) (b : Browser)
      → as_text o ≡ some t
      → renewed env o b ≡ (ok (some t), set_access_token (some t) b)
  renewed-token (some (str token)) t b h =
      let same : token ≡ t = cc in λ i. (ok (some (same i)), set_access_token (some (same i)) b)
  renewed-token none t b h = absurd cc
  renewed-token (some _) t b h = absurd cc

  refreshed-token :
      (o : Option Json) (t : String) (b : Browser)
      → as_text (member "access_token" o) ≡ some t
      → refreshed env o b ≡ (ok (some t), set_access_token (some t) b)
  refreshed-token (some (obj fields)) t b h =
      renewed-token (member "access_token" (some (obj fields))) t b h
  refreshed-token none t b h = absurd cc
  refreshed-token (some _) t b h = absurd cc

  -- A request under the token `t` and for the club `club`, where there is one.
  abbrev pub IsUnder : String → String → Option String → Sent → Type 0
  IsUnder path t club s =
      (s.path ≡ path)
      × (get_header "authorization" s.request.headers ≡ some ("Bearer " ++ₛ t))
      × (is_set club ≡ true → get_header "x-club-id" s.request.headers ≡ club)

  -- The token is stored and announced, and the request is sent again under it.
  pub record Repeats (path t : String) (club : Option String) (old new : Browser) : Type 0 where
    pub again : List Sent
    pub is_extended : new.sent ≡ again ++ old.sent
    pub some_sent : 1 ≤ length again
    pub under : All (IsUnder path t club) again
    pub token_stored : new.access_token ≡ some t
    pub announced : new.events ≡ token_changed (some t) ∷ old.events

  once-Repeats :
      (path t : String) (club : Option String) (options : RequestOptions) (b : Browser)
      → truthy t ≡ true
      → Repeats path t club b
          (api_request_once env path
            (record options { access_token = some t; selected_club_id = club })
            (set_access_token (some t) b)).1
  unfolding set_access_token
  once-Repeats path t club options b h =
      let options' = record options { access_token = some t; selected_club_id = club } in
      let stored = set_access_token (some t) b in
      let kept = once-kept path options' stored in
      let x = once-Extends env (IsUnder path t club) path options' stored (λ base. (
        refl,
        with_headers-bearer t (or_else club b.selected_club_id) options.request h,
        with_headers-club t club b.selected_club_id options.request,
      )) in
      record {
        again = x.added;
        is_extended = x.is_extended;
        some_sent = omega (
          arith,
          once-more env path options' stored,
          ap length x.is_extended,
          length-append x.added b.sent,
        );
        under = x.allowed;
        token_stored = kept.0;
        announced = kept.1;
      }

  -- What follows a request that was answered 401, given the answer `r` to its refresh.
  pub record Recovers (path : String) (options : RequestOptions) (b : Browser) (r : Response)
      : Type 0 where
    pub refused :
        is_ok r.status ≡ false
        → ((api_request env path options b).0
            ≡ err (api_error 401 "Session expired. Please sign in again." none))
          × ((api_request env path options b).1.access_token ≡ none)
          × ((api_request env path options b).1.events
              ≡ session_expired
                ∷ token_changed none
                ∷ (fetch_with_api_base_fallback env refresh_path refresh_request
                    (send env path options b).1).1.events)
    pub granted :
        (t : String)
        → is_ok r.status ≡ true
        → as_text (member "access_token" r.body) ≡ some t
        → truthy t ≡ true
        → Repeats path t
            (club_of env options b)
            (fetch_with_api_base_fallback env refresh_path refresh_request
              (send env path options b).1).1
            (api_request env path options b).1

  -- If a request that is not one of authentication is answered 401, then a refused refresh ends the
  -- session: the token is removed, the event is dispatched, and the request fails as expired. A
  -- granted one stores the new token, and sends the request again with it as the bearer and for the
  -- same club, where one is selected.
  pub api_request-Recovers :
      (path : String) (options : RequestOptions) (b : Browser) (first r : Response)
      → is_auth_path path ≡ false
      → (send env path options b).0 ≡ ok first
      → first.status ≡ 401
      → (fetch_with_api_base_fallback env refresh_path refresh_request
          (send env path options b).1).0
        ≡ ok r
      → Recovers path options b r
  unfolding api_request refresh_access_token set_access_token emit_session_expired
  api_request-Recovers path options b first r open_path sent unauthorized refreshes =
      let club = club_of env options b in
      let b1 = (send env path options b).1 in
      let b2 = (fetch_with_api_base_fallback env refresh_path refresh_request b1).1 in
      let stops : api_request env path options b ≡ answered env path options club (ok first) b1 =
        ap (λ o. answered env path options club o b1) sent in
      let again : answered env path options club (ok first) b1
          ≡ retried env path options club (refresh_access_token env b1) =
        rw (unauthorized, open_path) refl in
      let asked : refresh_access_token env b1 ≡ refresh_answer env (ok r) b2 =
        ap (λ o. refresh_answer env o b2) refreshes in
      let whole : api_request env path options b
          ≡ retried env path options club (refresh_answer env (ok r) b2) =
        stops ∙ again ∙ ap (λ x. retried env path options club x) asked in
      record {
        refused = λ no_token.
            let refusal : retried env path options club (refresh_answer env (ok r) b2) ≡ (
              err (api_error 401 "Session expired. Please sign in again." none),
              emit_session_expired (set_access_token none b2),
            ) =
              rw no_token refl in
            let done = whole ∙ refusal in
            (ap (λ x. x.0) done, ap (λ x. x.1.access_token) done, ap (λ x. x.1.events) done);
        granted = λ t accepted read set.
            let renewal : retried env path options club (refresh_answer env (ok r) b2)
                ≡ api_request_once env path
                    (record options { access_token = some t; selected_club_id = club })
                    (set_access_token (some t) b2) =
              rw (accepted, refreshed-token r.body t b2 read, set) refl in
            subst (Repeats path t club b2) (sym (ap (λ x. x.1) (whole ∙ renewal)))
              (once-Repeats path t club options b2 set);
      }
