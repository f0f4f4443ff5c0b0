-- ===== src/Api/Retry.antt =====
-- How often a request is sent, and what a refused refresh and a granted one lead to.
use greenlink.Prelude.{
  true, ◌||◌, ℕ, ◌+◌, ◌≤◌, String, ◌≡◌, ◌⊎◌, inl, inr, refl, ap, ◌∙◌, false, ◌&&◌, not, Option,
  none, some, List, [], ◌∷◌, ◌++◌, arith, ◌==◌, ◌!=◌, string_eq, nat_eq, filter, length,
  length-append, length-map, All, Bool-cases,
}
use greenlink.Prelude.Text.{is_set}
use greenlink.Sheet.Occupancy.{or_else}
use greenlink.Types.Json.{Json, null, str, obj, member}
use greenlink.Move.{Outcome, ok, err}
use greenlink.Api.{
  Env, Browser, Sent, Request, RequestOptions, Response, FetchError, type_error, other_error, Url,
  is_auth_path, refresh_path, refresh_request, local_bases, build_local_api_base_candidates,
  fetch_each, fetch_with_api_base_fallback, refresh_access_token, send, club_of, with_headers,
  api_request_once, api_request, refresh_answer, renewed, refreshed, answered, retried,
  set_access_token, emit_session_expired, first_or_error,
}

-- At most `n` requests were sent between two histories, each of which `P` allows.
pub record Extends (P : Sent → Type 0) (n : ℕ) (old new : List Sent) : Type 0 where
  pub added : List Sent
  pub is_extended : new ≡ added ++ old
  pub few : length added ≤ n
  pub allowed : All P added

append_assoc : (xs ys zs : List Sent) → xs ++ (ys ++ zs) ≡ xs ++ ys ++ zs
append_assoc [] ys zs = refl
append_assoc (x ∷ xs) ys zs = ap (λ l. x ∷ l) (append_assoc xs ys zs)

All-append : (P : Sent → Type 0) (xs ys : List Sent) → All P xs → All P ys → All P (xs ++ ys)
All-append P [] ys a b = b
All-append P (x ∷ xs) ys a b = (a.0, All-append P xs ys a.1 b)

Extends-none : (P : Sent → Type 0) (n : ℕ) (old : List Sent) → Extends P n old old
Extends-none P n old = record { added = []; is_extended = refl; few = omega arith; allowed = tt }

Extends-then :
    (P : Sent → Type 0) (m n : ℕ) (a b c : List Sent)
    → Extends P m a b
    → Extends P n b c
    → Extends P (m + n) a c
Extends-then P m n a b c x y = record {
  added = y.added ++ x.added;
  is_extended =
      y.is_extended ∙ ap (λ l. y.added ++ l) x.is_extended ∙ append_assoc y.added x.added a;
  few = omega (arith, length-append y.added x.added, x.few, y.few);
  allowed = All-append P y.added x.added y.allowed x.allowed;
}

Extends-mono :
    (P : Sent → Type 0) (m n : ℕ) (a b : List Sent) → m ≤ n → Extends P m a b → Extends P n a b
Extends-mono P m n a b h x = record {
  added = x.added;
  is_extended = x.is_extended;
  few = omega (arith, x.few);
  allowed = x.allowed;
}

pub Fetch-cases :
    (o : Outcome FetchError Response)
    → ((r : Response) × (o ≡ ok r))
      ⊎ (((m : String) × (o ≡ err (type_error m))) ⊎ ((m : String) × (o ≡ err (other_error m))))
Fetch-cases (ok r) = inl (r, refl)
Fetch-cases (err (type_error m)) = inr (inl (m, refl))
Fetch-cases (err (other_error m)) = inr (inr (m, refl))

one_sent :
    (P : Sent → Type 0) (n : ℕ) (s : Sent) (old : List Sent)
    → P s
    → 1 ≤ n
    → Extends P n old (s ∷ old)
one_sent P n s old p h = record { added = s ∷ []; is_extended = refl; few = h; allowed = (p, tt) }

module _ (env : Env) where
  fetch_each-Extends :
      (P : Sent → Type 0) (last : FetchError) (bases : List String) (path : String)
      (request : Request) (b : Browser)
      → ((base : String) → P (record { base_url = base; path = path; request = request }))
      → Extends P (length bases) b.sent (fetch_each env last bases path request b).1.sent
  unfolding fetch_each
  fetch_each-Extends P last [] path request b p = Extends-none P 0 b.sent
  fetch_each-Extends P last (base ∷ bases) path request b p =
      let s : Sent = record { base_url = base; path = path; request = request } in
      let b' = record b { sent = s ∷ b.sent } in
      elim (Fetch-cases (env.fetch b.sent s)) [
        | inl (r, e) ↦
            rw (e, fetch_each) (one_sent P (length (base ∷ bases)) s b.sent (p base) (omega arith))
        | inr (inl (m, e)) ↦
            rw (e, fetch_each)
              (Extends-mono P (1 + length bases) (length (base ∷ bases)) b.sent _ (omega arith) (
                Extends-then P 1 (length bases) b.sent (s ∷ b.sent) _
                  (one_sent P 1 s b.sent (p base) (omega arith))
                  (fetch_each-Extends P (type_error m) bases path request b' p)))
        | inr (inr (m, e)) ↦
            rw (e, fetch_each) (one_sent P (length (base ∷ bases)) s b.sent (p base) (omega arith))
      ]

  ports_few : (url : Url) → length (filter (λ port. url.port != port) ("8000" ∷ "8001" ∷ [])) ≤ 2
  ports_few url = ground arith

  local_bases_few : (base : String) (o : Option Url) → length (local_bases env base o) ≤ 3
  local_bases_few base none = omega arith
  local_bases_few base (some url) = ground (
    arith,
    ports_few url,
    length-map (env.with_port base) (filter (λ port. url.port != port) ("8000" ∷ "8001" ∷ [])),
  )

  pub candidates_few : (base : String) → length (build_local_api_base_candidates env base) ≤ 3
  unfolding build_local_api_base_candidates
  candidates_few base = ground (arith, local_bases_few base (env.parse_url base))

  fetch-Extends :
      (P : Sent → Type 0) (path : String) (request : Request) (b : Browser)
      → ((base : String) → P (record { base_url = base; path = path; request = request }))
      → Extends P 3 b.sent (fetch_with_api_base_fallback env path request b).1.sent
  unfolding fetch_with_api_base_fallback
  fetch-Extends P path request b p =
      Extends-mono P (length (build_local_api_base_candidates env b.resolved_api_base_url)) 3 b.sent
        _ (candidates_few b.resolved_api_base_url)
        (fetch_each-Extends P (type_error "Failed to fetch")
          (build_local_api_base_candidates env b.resolved_api_base_url) path request b p)

  renewed-sent : (o : Option Json) (b : Browser) → (renewed env o b).1.sent ≡ b.sent
  unfolding set_access_token
  renewed-sent none b = refl
  renewed-sent (some (str token)) b = refl
  renewed-sent (some _) b = refl

  refreshed-sent : (o : Option Json) (b : Browser) → (refreshed env o b).1.sent ≡ b.sent
  unfolding set_access_token
  refreshed-sent none b = refl
  refreshed-sent (some null) b = refl
  refreshed-sent (some (obj fields)) b = renewed-sent (member "access_token" (some (obj fields))) b
  refreshed-sent (some _) b = refl

  refresh_answer-sent :
      (o : Outcome FetchError Response) (b : Browser) → (refresh_answer env o b).1.sent ≡ b.sent
  unfolding set_access_token emit_session_expired
  refresh_answer-sent (ok r) b = ground (arith, refreshed-sent r.body b)
  refresh_answer-sent (err e) b = refl

  Extends-end :
      (P : Sent → Type 0) (n : ℕ) (old new new' : List Sent)
      → new' ≡ new
      → Extends P n old new
      → Extends P n old new'
  Extends-end P n old new new' e x = record {
    added = x.added;
    is_extended = e ∙ x.is_extended;
    few = x.few;
    allowed = x.allowed;
  }

  refresh-Extends :
      (P : Sent → Type 0) (b : Browser)
      → ((base : String)
          → P (record { base_url = base; path = refresh_path; request = refresh_request }))
      → Extends P 3 b.sent (refresh_access_token env b).1.sent
  unfolding refresh_access_token
  refresh-Extends P b p =
      let (r, b') = fetch_with_api_base_fallback env refresh_path refresh_request b in
      Extends-end P 3 b.sent b'.sent _ (refresh_answer-sent r b')
        (fetch-Extends P refresh_path refresh_request b p)

  first_or_error-sent :
      (o : Outcome FetchError Response) (b : Browser) → (first_or_error env o b).1.sent ≡ b.sent
  first_or_error-sent (ok r) b = refl
  first_or_error-sent (err e) b = refl

  pub once-Extends :
      (P : Sent → Type 0) (path : String) (options : RequestOptions) (b : Browser)
      → ((base : String)
          → P (record {
            base_url = base;
            path = path;
            request =
                with_headers
                  (or_else b.access_token options.access_token)
                  (club_of env options b)
                  options.request;
          }))
      → Extends P 3 b.sent (api_request_once env path options b).1.sent
  unfolding api_request_once
  once-Extends P path options b p =
      Extends-end P 3 b.sent _ _ (first_or_error-sent _ _) (fetch-Extends P path _ b p)

  -- A request is sent at least once.
  fetch_each-sent :
      (last : FetchError) (bases : List String) (path : String) (request : Request) (b : Browser)
      → length b.sent ≤ length (fetch_each env last bases path request b).1.sent
  fetch_each-sent last bases path request b =
      let x = fetch_each-Extends (λ s. Unit) last bases path request b (λ base. tt) in
      omega (arith, ap length x.is_extended, length-append x.added b.sent)

  fetch_each-more :
      (last : FetchError) (base : String) (bases : List String) (path : String) (request : Request)
      (b : Browser)
      → length b.sent + 1 ≤ length (fetch_each env last (base ∷ bases) path request b).1.sent
  unfolding fetch_each
  fetch_each-more last base bases path request b =
      let s : Sent = record { base_url = base; path = path; request = request } in
      let b' = record b { sent = s ∷ b.sent } in
      elim (Fetch-cases (env.fetch b.sent s)) [
        | inl (r, e) ↦ rw (e, fetch_each) (omega arith)
        | inr (inl (m, e)) ↦
            rw (e, fetch_each)
              (let later = fetch_each-sent (type_error m) bases path request b' in omega arith)
        | inr (inr (m, e)) ↦ rw (e, fetch_each) (omega arith)
      ]

  local_bases-cons :
      (base : String) (o : Option Url)
      → (bases : List String) × (local_bases env base o ≡ base ∷ bases)
  local_bases-cons base none = ([], refl)
  local_bases-cons base (some url) =
      elim (Bool-cases (url.hostname == "localhost" || url.hostname == "127.0.0.1")) [
        | inl local ↦ rw local (_, refl)
        | inr remote ↦ rw remote ([], refl)
      ]

  candidates-cons :
      (base : String)
      → (bases : List String) × (build_local_api_base_candidates env base ≡ base ∷ bases)
  unfolding build_local_api_base_candidates
  candidates-cons base = elim (Bool-cases (env.app_env != "development" || not env.has_window)) [
    | inl one ↦ rw one ([], refl)
    | inr several ↦ rw several (local_bases-cons base (env.parse_url base))
  ]

  pub fetch-more :
      (path : String) (request : Request) (b : Browser)
      → length b.sent + 1 ≤ length (fetch_with_api_base_fallback env path request b).1.sent
  unfolding fetch_with_api_base_fallback
  fetch-more path request b =
      let (bases, e) = candidates-cons b.resolved_api_base_url in
      rw e (fetch_each-more (type_error "Failed to fetch") _ bases path request b)

  -- What was sent between two histories, the latest first: three fetches at most of the request
  -- itself, of its refresh and of its repetition. There is no repetition without a refresh, nor a
  -- refresh of login, logout and the refresh itself.
  pub record Rounds (path : String) (old new : List Sent) : Type 0 where
    pub first : List Sent
    pub refresh : List Sent
    pub again : List Sent
    pub is_extended : new ≡ again ++ (refresh ++ (first ++ old))
    pub first_few : length first ≤ 3
    pub refresh_few : length refresh ≤ 3
    pub again_few : length again ≤ 3
    pub first_path : All (λ s. s.path ≡ path) first
    pub refresh_path_only : All (λ s. s.path ≡ refresh_path) refresh
    pub again_path : All (λ s. s.path ≡ path) again
    pub auth_once : is_auth_path path ≡ true → (refresh ≡ []) × (again ≡ [])
    pub again_refreshed : refresh ≡ [] → again ≡ []

  module _ (path : String) (options : RequestOptions) where
    retried-Extends :
        (club : Option String) (o : Outcome FetchError (Option String)) (b : Browser)
        → Extends (λ s. s.path ≡ path) 3 b.sent (retried env path options club (o, b)).1.sent
    retried-Extends club (err e) b = Extends-none (λ s. s.path ≡ path) 3 b.sent
    retried-Extends club (ok token) b = elim (Bool-cases (is_set token)) [
      | inl set ↦ rw set (
          once-Extends (λ s. s.path ≡ path) path
            (record options { access_token = token; selected_club_id = club }) b (λ base. refl))
      | inr unset ↦ rw unset (Extends-none (λ s. s.path ≡ path) 3 b.sent)
    ]

  pub once-more :
      (path : String) (options : RequestOptions) (b : Browser)
      → length b.sent + 1 ≤ length (api_request_once env path options b).1.sent
  unfolding api_request_once
  once-more path options b =
      let (r, b') = send env path options b in
      omega (arith, fetch-more path _ b, ap length (first_or_error-sent r b'))

  refresh-more : (b : Browser) → length b.sent + 1 ≤ length (refresh_access_token env b).1.sent
  unfolding refresh_access_token
  refresh-more b =
      let (r, b') = fetch_with_api_base_fallback env refresh_path refresh_request b in
      omega (arith, fetch-more refresh_path refresh_request b, ap length (refresh_answer-sent r b'))

  module _ (path : String) (options : RequestOptions) (old : List Sent) where
    Rounds-stop : (new : List Sent) → Extends (λ s. s.path ≡ path) 3 old new → Rounds path old new
    Rounds-stop new f = record {
      first = f.added;
      refresh = [];
      again = [];
      is_extended = f.is_extended;
      first_few = f.few;
      refresh_few = omega arith;
      again_few = omega arith;
      first_path = f.allowed;
      refresh_path_only = tt;
      again_path = tt;
      auth_once = λ h. (refl, refl);
      again_refreshed = λ h. refl;
    }

    Rounds-again :
        (club : Option String) (b : Browser)
        → is_auth_path path ≡ false
        → Extends (λ s. s.path ≡ path) 3 old b.sent
        → Rounds path old (retried env path options club (refresh_access_token env b)).1.sent
    Rounds-again club b open_path f =
        let (o, b') = refresh_access_token env b in
        let r = refresh-Extends (λ s. s.path ≡ refresh_path) b (λ base. refl) in
        let a = retried-Extends path options club o b' in
        record {
          first = f.added;
          refresh = r.added;
          again = a.added;
          is_extended =
              a.is_extended
              ∙ ap (λ l. a.added ++ l) (r.is_extended ∙ ap (λ l. r.added ++ l) f.is_extended);
          first_few = f.few;
          refresh_few = r.few;
          again_few = a.few;
          first_path = f.allowed;
          refresh_path_only = r.allowed;
          again_path = a.allowed;
          auth_once = λ h. absurd cc;
          again_refreshed = λ h. absurd (
              omega (
                arith,
                refresh-more b,
                ap length r.is_extended,
                length-append r.added b.sent,
                ap length h,
              ));
        }

    answered-Rounds :
        (club : Option String) (o : Outcome FetchError Response) (b : Browser)
        → Extends (λ s. s.path ≡ path) 3 old b.sent
        → Rounds path old (answered env path options club o b).1.sent
    answered-Rounds club (err e) b f = Rounds-stop b.sent f
    answered-Rounds club (ok r) b f =
        elim (Bool-cases (r.status == 401 && not (is_auth_path path))) [
          | inl again ↦ rw again (Rounds-again club b (ground (arith, again)) f)
          | inr settles ↦ rw settles (Rounds-stop b.sent f)
        ]

  -- However the network answers, a request ends with at most three fetches of its path, at most
  -- three of the refresh, and at most three of its path again. The last ones follow only on a
  -- refresh, and login, logout and the refresh itself are neither refreshed nor repeated.
  pub api_request-Rounds :
      (path : String) (options : RequestOptions) (b : Browser)
      → Rounds path b.sent (api_request env path options b).1.sent
  unfolding api_request
  api_request-Rounds path options b =
      answered-Rounds path options b.sent (club_of env options b) (send env path options b).0
        (send env path options b).1 (fetch-Extends (λ s. s.path ≡ path) path _ b (λ base. refl))
