-- ===== src/Session/Guard/Access.antt =====
-- Who gets past the guard.
use mathlib.Core.Path.{subst}
use greenlink.Prelude.{
  String, ◌≡◌, ◌≢◌, ◌↔◌, ◌⊎◌, inl, inr, refl, sym, Bool, true, false, ◌&&◌, ◌||◌, not, Option, none,
  some, arith, if◌then◌else◌, ◌==◌, string_eq, Option-cases,
}
use greenlink.Prelude.Text.{is_set}
use greenlink.Types.Session.{
  SessionBootstrap, SessionMenuShell, admin_shell, same_shell, superadmin,
}
use greenlink.Session.{Session}
use greenlink.Session.Guard.{
  Rendered, navigate, loading_session, no_access, outlet, route_allowed,
  allow_superadmin_admin_bridge, protected_route, is_some, of_bootstrap, of_shell, shell_checks,
}

-- The account may open a page of the shell: it has no role yet, or the role of the shell and the page
-- is one of the shell's, or another role, from where it is a superadmin that has selected a club
-- and goes to the pages of the club's administration.
abbrev pub MayOpen : Option SessionMenuShell → SessionBootstrap → String → Type 0
MayOpen none b pathname = Unit
MayOpen (some shell) b pathname =
    (b.role_shell ≡ none)
    ⊎ (b.role_shell ≡ some shell) × (route_allowed shell b pathname ≡ true)
    ⊎ (b.role_shell ≢ some shell)
      × (shell ≡ admin_shell)
      × (b.user.user_type ≡ superadmin)
      × (b.selected_club_id ≢ none)

-- A club is selected, or has to be on this page; without a role the account may only select one.
pub record IsAdmitted (shell : Option SessionMenuShell) (pathname : String) (b : SessionBootstrap)
    : Type 0 where
  pub selects : b.club_selection_required ≡ true → pathname ≡ "/select-club"
  pub has_role : b.club_selection_required ≡ false → b.role_shell ≢ none
  pub may_open : MayOpen shell b pathname

same_shell_iff : (a b : SessionMenuShell) → (same_shell a b ≡ true) ↔ (a ≡ b)
same_shell_iff a b = ground arith

bridge_iff :
    (shell : SessionMenuShell) (b : SessionBootstrap)
    → (allow_superadmin_admin_bridge shell b ≡ true)
      ↔ (shell ≡ admin_shell) × (b.user.user_type ≡ superadmin) × (b.selected_club_id ≢ none)
unfolding allow_superadmin_admin_bridge
bridge_iff shell b = ground arith

of_shell_iff :
    (shell : SessionMenuShell) (role : Option SessionMenuShell) (b : SessionBootstrap)
    (pathname : String)
    → (shell_checks shell role b pathname ≡ outlet)
      ↔ (role ≡ none)
        ⊎ (role ≡ some shell) × (route_allowed shell b pathname ≡ true)
        ⊎ (role ≢ some shell)
          × (shell ≡ admin_shell)
          × (b.user.user_type ≡ superadmin)
          × (b.selected_club_id ≢ none)
of_shell_iff shell none b pathname = ground arith
of_shell_iff shell (some role) b pathname =
    ground (arith, bridge_iff shell b, same_shell_iff shell role)

MayOpen-iff :
    (shell : Option SessionMenuShell) (b : SessionBootstrap) (pathname : String)
    → (of_shell shell b pathname ≡ outlet) ↔ MayOpen shell b pathname
MayOpen-iff none b pathname = ground arith
MayOpen-iff (some shell) b pathname = of_shell_iff shell b.role_shell b pathname

checks_iff :
    (required at_selection : Bool) (role : Option SessionMenuShell) (r : Rendered)
    → ((if required && not at_selection
          then navigate "/select-club"
          else if not (is_some role) && not required
          then no_access
          else r)
        ≡ outlet)
      ↔ (required ≡ true → at_selection ≡ true) × (required ≡ false → role ≢ none) × (r ≡ outlet)
checks_iff required at_selection none r = ground arith
checks_iff required at_selection (some role) r = ground arith

of_bootstrap_iff :
    (shell : Option SessionMenuShell) (b : SessionBootstrap) (pathname : String)
    → (of_bootstrap shell (some b) pathname ≡ outlet) ↔ IsAdmitted shell pathname b
of_bootstrap_iff shell b pathname =
    let c =
      checks_iff b.club_selection_required (pathname == "/select-club") b.role_shell
        (of_shell shell b pathname) in
    let m = MayOpen-iff shell b pathname in
    let e = string_eq.beq_iff pathname "/select-club" in
    (
      (λ h.
          let (select, role, page) = c.0 h in
          record { selects = λ r. e.0 (select r); has_role = role; may_open = m.0 page }),
      (λ a. c.1 ((λ r. e.1 (a.selects r)), a.has_role, m.1 a.may_open)),
    )

session_iff :
    (token ready busy : Bool) (r : Rendered)
    → ((if not token then navigate "/login" else if not ready || busy then loading_session else r)
        ≡ outlet)
      ↔ (token ≡ true) × (ready ≡ true) × (busy ≡ false) × (r ≡ outlet)
session_iff token ready busy r = ground arith

some-inj : (b c : SessionBootstrap) → some b ≡ some c → b ≡ c
some-inj b c e = ground arith

-- The guard of a shell shows the page exactly if there is a token, the session is initialised and not
-- loading, and its bootstrap admits the account to the page.
pub protected_route-IsAdmitted :
    (shell : Option SessionMenuShell) (pathname : String) (s : Session)
    → (protected_route shell pathname s ≡ outlet)
      ↔ (is_set s.access_token ≡ true)
        × (s.initialized ≡ true)
        × (s.loading ≡ false)
        × ((b : SessionBootstrap) × (s.bootstrap ≡ some b) × IsAdmitted shell pathname b)
unfolding protected_route
protected_route-IsAdmitted shell pathname s = elim (Option-cases s.bootstrap) [
  | inl missing ↦ rw missing ((λ h. ground arith), (λ h. ground arith))
  | inr (b, loaded) ↦ rw loaded (
    (λ h.
        let (token, ready, idle, page) =
          (session_iff (is_set s.access_token) s.initialized s.loading
              (of_bootstrap shell (some b) pathname)).0
            h in
        (token, ready, idle, (b, refl, (of_bootstrap_iff shell b pathname).0 page))),
    (λ h.
        let (token, ready, idle, held) = h in
        let (c, same, admitted) = held in
        (session_iff (is_set s.access_token) s.initialized s.loading
            (of_bootstrap shell (some b) pathname)).1
          (
            token,
            ready,
            idle,
            (of_bootstrap_iff shell b pathname).1
                (subst (IsAdmitted shell pathname) (some-inj c b (sym same)) admitted),
          )),
  )
]
