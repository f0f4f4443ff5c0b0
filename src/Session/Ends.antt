-- ===== src/Session/Ends.antt =====
-- What the guard shows of a session without an open request.
use greenlink.Prelude.{
  String, ◌≡◌, ◌≢◌, true, false, Option, none, some, [], arith, Bool-cases, not, ◌||◌, Option-cases,
  if◌then◌else◌, inl, inr,
}
use greenlink.Prelude.Text.{is_set}
use greenlink.Types.Session.{SessionBootstrap, SessionMenuShell}
use greenlink.Session.{Session, opened}
use greenlink.Session.Guard.{loading_session, protected_route, of_bootstrap, shell_checks}
use greenlink.Session.Runs.{Reach}
use greenlink.Session.Settled.{Reach-IsSettled}

checks-shown :
    (role : Option SessionMenuShell) (shell : SessionMenuShell) (b : SessionBootstrap)
    (pathname : String)
    → shell_checks shell role b pathname ≢ loading_session
checks-shown none shell b pathname shown = ground arith
checks-shown (some role) shell b pathname shown = ground arith

bootstrap-shown :
    (shell : Option SessionMenuShell) (b : SessionBootstrap) (pathname : String)
    → of_bootstrap shell (some b) pathname ≢ loading_session
bootstrap-shown none b pathname shown = ground arith
bootstrap-shown (some shell) b pathname shown =
    let e = checks-shown b.role_shell shell b pathname in ground arith

waits-none :
    (shell : Option SessionMenuShell) (pathname : String) (s : Session)
    → (s.initialized ≡ false → s.bootstrap ≡ none)
    → s.loading ≡ false
    → (if not s.initialized || s.loading
        then loading_session
        else of_bootstrap shell s.bootstrap pathname)
      ≡ loading_session
    → s.bootstrap ≡ none
waits-none shell pathname s known idle shown = elim (Option-cases s.bootstrap) [
  | inl missing ↦ missing
  | inr (b, held) ↦ elim (Bool-cases s.initialized) [
    | inl ready ↦
        (let shown' = rw (ready, idle, held) at shown in
          absurd (bootstrap-shown shell b pathname shown'))
    | inr unready ↦ known unready
  ]
]

-- In a reachable session without an open request the guard shows the loading panel only if there is a
-- token and no bootstrap, as behind a request that failed.
pub loading_session-waits :
    {token club : Option String} (shell : Option SessionMenuShell) (pathname : String) (s : Session)
    → Reach (opened token club) s
    → s.tasks ≡ []
    → protected_route shell pathname s ≡ loading_session
    → (is_set s.access_token ≡ true) × (s.bootstrap ≡ none)
unfolding protected_route
loading_session-waits shell pathname s r ended shown =
    let settled = Reach-IsSettled r in
    let idle = settled.idle ended in
    elim (Bool-cases (is_set s.access_token)) [
      | inl token ↦ (token, waits-none shell pathname s settled.kept.known idle (rw token at shown))
      | inr unset ↦ (let shown' = rw unset at shown in ground arith)
    ]
