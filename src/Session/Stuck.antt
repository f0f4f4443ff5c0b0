-- ===== src/Session/Stuck.antt =====
-- Two runs that end where the user would not expect.
use greenlink.Prelude.{str_eq_refl, String, ◌≡◌, refl, true, false, Option, some, [], ◌∷◌}
use greenlink.Prelude.Text.{is_set}
use greenlink.Types.Session.{SessionBootstrap, TokenResponse, SessionMenuShell}
use greenlink.Move.{ok, err}
use greenlink.Api.{Failure}
use greenlink.Session.{
  Session, fetching, refetching, opened, set_access_token, persist_access_token,
  handle_token_changed, is_unauthorized, fetched, refreshed, refetched, logout, run_effect,
  load_bootstrap, effect_due,
}
use greenlink.Session.Guard.{loading_session, protected_route}

-- The page is opened with a stored token, and its bootstrap answers with anything but a 401, such as
-- a 500 or no connection: the guard shows the loading panel on every page, no request is open and
-- the effect will not run again.
pub failed_bootstrap_stuck :
    (token : String) (club : Option String) (error : Failure) (shell : Option SessionMenuShell)
    (pathname : String)
    → is_set (some token) ≡ true
    → is_unauthorized error ≡ false
    → let s =
        fetched club (err error) (record (run_effect (opened (some token) club)) { tasks = [] }) in
      ((run_effect (opened (some token) club)).tasks ≡ fetching token club ∷ [])
      × (protected_route shell pathname s ≡ loading_session)
      × (s.tasks ≡ [])
      × (effect_due s ≡ false)
unfolding run_effect load_bootstrap fetched protected_route
failed_bootstrap_stuck token club error shell pathname set other =
    rw (set, other) (refl, rw (set, protected_route) refl, refl, rw (str_eq_refl token) refl)

-- A logout while a refresh is open does not last: when the refresh succeeds, its token is kept and
-- stored, and the bootstrap that is then fetched with it is shown.
pub logout_undone :
    (s : Session) (club : Option String) (result : TokenResponse) (b : SessionBootstrap)
    → is_set (some result.access_token) ≡ true
    → let t = refreshed club (ok result) (logout s) in
      let u = refetched (ok b) (record t { tasks = s.tasks }) in
      (t.tasks ≡ refetching result.access_token ∷ s.tasks)
      × (u.access_token ≡ some result.access_token)
      × (u.stored_token ≡ some result.access_token)
      × (u.bootstrap ≡ some b)
unfolding refreshed refetched logout set_access_token persist_access_token handle_token_changed
logout_undone s club result b set = rw set (refl, refl, refl, refl)
