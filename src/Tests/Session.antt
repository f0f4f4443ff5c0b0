-- ===== src/Tests/Session.antt =====
-- A session of a member of staff.
use greenlink.Prelude.{◌≡◌, ◌↔◌, refl, true, false, none, some, [], ◌∷◌}
use greenlink.Types.Session.{SessionBootstrap, SessionUser, UserType, admin_shell}
use greenlink.Move.{ok, err}
use greenlink.Api.{api_error}
use greenlink.Session.{
  Session, Task, fetching, refreshing, refetching, opened, run_effect, effect_due, fetched,
}
use greenlink.Session.Guard.{outlet, loading_session, protected_route}
use greenlink.Session.Guard.Access.{IsAdmitted, protected_route-IsAdmitted}
use greenlink.Session.Runs.{Answer, of_bootstrap, of_refresh, Fits, Reach, here, next, effect}
use greenlink.Session.Settled.{IsSettled, Reach-IsSettled}
use greenlink.Session.Stuck.{failed_bootstrap_stuck}

abbrev ann : SessionUser
ann = record { id = "u1"; email = "ann@club"; display_name = "Ann"; user_type = UserType.user }

abbrev club : SessionBootstrap
club = record {
  user = ann;
  available_clubs = [];
  selected_club_id = some "club";
  selected_club = none;
  club_selection_required = false;
  role_shell = some admin_shell;
  default_workspace = none;
  landing_path = "/admin/dashboard";
  module_flags = [];
  menu_items = some (
      record {
        key = "golf";
        label = "Golf";
        path = "/admin/golf";
        shell = admin_shell;
        domain = "golf";
        module_key = none;
      }
      ∷ []);
  permissions = [];
  feature_flags = none;
}

abbrev shown : Session
shown = record (opened (some "old") none) { bootstrap = some club; initialized = true }

protected_route-IsAdmitted_example :
    (protected_route (some admin_shell) "/admin/golf/tee-sheet" shown ≡ outlet)
    ↔ (true ≡ true)
      × (true ≡ true)
      × (false ≡ false)
      × ((b : SessionBootstrap) × (some club ≡ some b)
          × IsAdmitted (some admin_shell) "/admin/golf/tee-sheet" b)
protected_route-IsAdmitted_example =
    protected_route-IsAdmitted (some admin_shell) "/admin/golf/tee-sheet" shown

abbrev waiting : Session
waiting = run_effect (opened (some "old") none)

abbrev waiting_reached : Reach (opened (some "old") none) waiting
waiting_reached = next here (effect refl)

Reach-IsSettled_example : IsSettled waiting
Reach-IsSettled_example = Reach-IsSettled waiting_reached

-- The first token has expired, and the refresh is granted.
abbrev backend : Task → Answer
backend (fetching token selected) = of_bootstrap (err (api_error 401 "expired" none))
backend (refreshing selected) = of_refresh (
    ok (record {
      access_token = "new";
      token_type = "bearer";
      expires_in_seconds = 900;
      user = ann;
    }))
backend (refetching token) = of_bootstrap (ok club)

abbrev backend_fits : (task : Task) → Fits task (backend task)
backend_fits (fetching token selected) = tt
backend_fits (refreshing selected) = tt
backend_fits (refetching token) = tt

failed_bootstrap_stuck_example :
    let s = fetched none (err (api_error 500 "down" none)) (record waiting { tasks = [] }) in
    (waiting.tasks ≡ fetching "old" none ∷ [])
    × (protected_route none "/select-club" s ≡ loading_session)
    × (s.tasks ≡ [])
    × (effect_due s ≡ false)
failed_bootstrap_stuck_example =
    failed_bootstrap_stuck "old" none (api_error 500 "down" none) none "/select-club" refl refl
