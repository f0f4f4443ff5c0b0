-- ===== src/Session/Guard.antt =====
-- The guards of the routes: frontend/src/components/protected-route.tsx, RootRedirect of
-- frontend/src/routes/router.tsx, and the titles of frontend/src/routes/admin-layout.tsx.
pub mod Access
use greenlink.Prelude.{
  ℕ, String, Bool, true, false, ◌&&◌, ◌||◌, not, Option, none, some, List, [], ◌∷◌, if◌then◌else◌,
  ◌==◌, ◌!=◌, string_eq, any, filter, find?,
}
use greenlink.Prelude.Text.{◌++ₛ◌, is_set, starts_with}
use greenlink.Types.Session.{
  SessionBootstrap, SessionMenuItem, SessionMenuShell, admin_shell, player_shell, superadmin_shell,
  same_shell, superadmin, user,
}
use greenlink.Session.{Session}

pub data Rendered : Type 0 where
  navigate : String → Rendered
  loading_session no_access outlet : Rendered

abbrev pub shell_name : SessionMenuShell → String
shell_name admin_shell = "admin"
shell_name player_shell = "player"
shell_name superadmin_shell = "superadmin"

abbrev pub access_route_aliases : String → List String
access_route_aliases key =
    if key == "settings_hub" then "/admin/golf/settings" ∷ "/admin/settings/modules" ∷ [] else []

-- pathname === path || pathname.startsWith(`${path}/`)
abbrev pub is_under : String → String → Bool
is_under pathname path = pathname == path || starts_with (path ++ₛ "/") pathname

abbrev pub item_allows : String → SessionMenuItem → Bool
item_allows pathname item =
    is_under pathname item.path || any (is_under pathname) (access_route_aliases item.key)

abbrev is_empty {ℓ} : {A : Type ℓ} → List A → Bool
is_empty [] = true
is_empty (_ ∷ _) = false

abbrev items_or_none : Option (List SessionMenuItem) → List SessionMenuItem
items_or_none none = []
items_or_none (some items) = items

abbrev pub shell_items : SessionMenuShell → SessionBootstrap → List SessionMenuItem
shell_items shell b = filter (λ item. same_shell item.shell shell) (items_or_none b.menu_items)

unfoldable pub route_allowed : SessionMenuShell → SessionBootstrap → String → Bool
route_allowed shell b pathname =
    pathname == "/" ++ₛ shell_name shell
    || is_empty (shell_items shell b)
    || any (item_allows pathname) (shell_items shell b)

abbrev is_superadmin : SessionBootstrap → Bool
is_superadmin b = elim b.user.user_type [ superadmin ↦ true | user ↦ false ]

abbrev pub is_some {ℓ} : {A : Type ℓ} → Option A → Bool
is_some none = false
is_some (some _) = true

unfoldable pub allow_superadmin_admin_bridge : SessionMenuShell → SessionBootstrap → Bool
allow_superadmin_admin_bridge shell b =
    same_shell shell admin_shell && is_superadmin b && is_some b.selected_club_id

-- The checks of the shell, for an account with the given role shell.
abbrev pub shell_checks :
    SessionMenuShell → Option SessionMenuShell → SessionBootstrap → String → Rendered
shell_checks shell none b pathname = outlet
shell_checks shell (some role) b pathname =
    if not (same_shell shell role) && not (allow_superadmin_admin_bridge shell b)
    then navigate b.landing_path
    else if same_shell shell role && not (route_allowed shell b pathname)
    then navigate b.landing_path
    else outlet

abbrev pub of_shell : Option SessionMenuShell → SessionBootstrap → String → Rendered
of_shell none b pathname = outlet
of_shell (some shell) b pathname = shell_checks shell b.role_shell b pathname

abbrev pub of_bootstrap : Option SessionMenuShell → Option SessionBootstrap → String → Rendered
of_bootstrap shell none pathname = loading_session
of_bootstrap shell (some b) pathname =
    if b.club_selection_required && pathname != "/select-club"
    then navigate "/select-club"
    else if not (is_some b.role_shell) && not b.club_selection_required
    then no_access
    else of_shell shell b pathname

unfoldable pub protected_route : Option SessionMenuShell → String → Session → Rendered
unfolding route_allowed allow_superadmin_admin_bridge
protected_route shell pathname s =
    if not (is_set s.access_token)
    then navigate "/login"
    else if not s.initialized || s.loading
    then loading_session
    else of_bootstrap shell s.bootstrap pathname

abbrev root_of : Option SessionBootstrap → Rendered
root_of none = loading_session
root_of (some b) = navigate b.landing_path

unfoldable pub root_redirect : Session → Rendered
root_redirect s = if not (is_set s.access_token) then navigate "/login" else root_of s.bootstrap

pub record AdminRouteMeta : Type 0 where
  pub title : String
  pub breadcrumbs : List String
  pub search_placeholder : Option String

abbrev titled : String → String → String × AdminRouteMeta
titled path title = (path, record { title = title; breadcrumbs = []; search_placeholder = none })

abbrev searched : String → String → String → String × AdminRouteMeta
searched path title placeholder =
    (path, record { title = title; breadcrumbs = []; search_placeholder = some placeholder })

abbrev pub admin_route_meta : List (String × AdminRouteMeta)
admin_route_meta =
    titled "/admin/dashboard" "Dashboard"
    ∷ titled "/admin/golf/dashboard" "Golf summary"
    ∷ searched "/admin/golf/tee-sheet" "Tee sheet" "Search tee times…"
    ∷ (
      "/admin/tee-sheet",
      record {
        title = "Tee sheet";
        breadcrumbs = "Operate" ∷ [];
        search_placeholder = some "Search tee times…";
      },
    )
    ∷ titled "/admin/golf/settings" "Golf settings"
    ∷ (
      "/admin/settings",
      record { title = "Club"; breadcrumbs = "Settings" ∷ []; search_placeholder = none },
    )
    ∷ (
      "/admin/settings/modules",
      record { title = "Modules"; breadcrumbs = "Settings" ∷ []; search_placeholder = none },
    )
    ∷ searched "/admin/orders" "Order queue" "Search orders…"
    ∷ titled "/admin/people/dashboard" "People summary"
    ∷ searched "/admin/members" "Members" "Search members…"
    ∷ titled "/admin/finance/dashboard" "Finance summary"
    ∷ titled "/admin/finance" "Daily close"
    ∷ searched "/admin/communications" "Communications" "Search posts…"
    ∷ searched "/admin/halfway" "Halfway house" "Search orders…"
    ∷ searched "/admin/pro-shop" "Pro shop" "Search products…"
    ∷ titled "/admin/reports" "Reports"
    ∷ titled "/admin/targets" "Targets"
    ∷ searched "/admin/pos-terminal" "POS terminal" "Search products…"
    ∷ []

abbrev meta_or_admin : Option (String × AdminRouteMeta) → AdminRouteMeta
meta_or_admin none = record { title = "Admin"; breadcrumbs = []; search_placeholder = none }
meta_or_admin (some (path, meta)) = meta

unfoldable pub route_meta_for : String → AdminRouteMeta
route_meta_for pathname = meta_or_admin (find? (λ entry. entry.0 == pathname) admin_route_meta)
