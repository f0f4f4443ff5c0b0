-- ===== src/Types/Session.antt =====
-- frontend/src/types/session.ts. `RoleShell` is an optional `SessionMenuShell`.
use greenlink.Prelude.{ℕ, String, Bool, true, false, Option, List}

pub data UserType : Type 0 where
  superadmin user : UserType

pub data MembershipRole : Type 0 where
  club_admin club_staff member : MembershipRole

pub data MembershipStatus : Type 0 where
  active invited suspended inactive : MembershipStatus

pub data SessionMenuShell : Type 0 where
  admin_shell player_shell superadmin_shell : SessionMenuShell

pub record SessionUser : Type 0 where
  pub id : String
  pub email : String
  pub display_name : String
  pub user_type : UserType

pub record AvailableClub : Type 0 where
  pub club_id : String
  pub club_name : String
  pub club_slug : String
  pub membership_role : Option MembershipRole
  pub membership_status : Option MembershipStatus
  pub selectable : Bool
  pub is_primary_hint : Bool

pub record SelectedClub : Type 0 where
  pub id : String
  pub name : String
  pub slug : String
  pub location : String
  pub timezone : String
  pub branding_logo_object_key : Option String
  pub branding_name : Option String

pub record SessionMenuItem : Type 0 where
  pub key : String
  pub label : String
  pub path : String
  pub shell : SessionMenuShell
  pub domain : String
  pub module_key : Option String

pub record SessionBootstrap : Type 0 where
  pub user : SessionUser
  pub available_clubs : List AvailableClub
  pub selected_club_id : Option String
  pub selected_club : Option SelectedClub
  pub club_selection_required : Bool
  pub role_shell : Option SessionMenuShell
  pub default_workspace : Option String
  pub landing_path : String
  pub module_flags : List (String × Bool)
  pub menu_items : Option (List SessionMenuItem)
  pub permissions : List String
  pub feature_flags : Option (List (String × Bool))

pub record TokenResponse : Type 0 where
  pub access_token : String
  pub token_type : String
  pub expires_in_seconds : ℕ
  pub user : SessionUser

abbrev pub same_shell : SessionMenuShell → SessionMenuShell → Bool
same_shell admin_shell admin_shell = true
same_shell player_shell player_shell = true
same_shell superadmin_shell superadmin_shell = true
same_shell _ _ = false
