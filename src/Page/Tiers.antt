-- ===== src/Page/Tiers.antt =====
-- The Escape key.
use greenlink.Prelude.{
  ℕ, String, ◌≡◌, refl, Bool, true, false, Option, none, some, ◌+◌, ◌-◌, if◌then◌else◌,
}
use greenlink.Page.{
  PageState, is_some, page_escape, popover_escape, modal_escape, dismiss_price_popover,
  dismiss_shortcuts, escape,
}

-- The help, then the price popover, then the selection.
abbrev pub close_top : PageState → PageState
close_top s =
    if s.shortcuts_open
    then record s { shortcuts_open = false }
    else if is_some s.price_popover
    then record s { price_popover = none }
    else record s { selected_slot_key = none }

abbrev pub open_tiers : PageState → ℕ
open_tiers s =
    (if s.shortcuts_open then 1 else 0)
    + (if is_some s.price_popover then 1 else 0)
    + (if is_some s.selected_slot_key then 1 else 0)

abbrev with_tiers : Option String → Option String → Bool → PageState → PageState
with_tiers selected popover help s = record s {
  selected_slot_key = selected;
  price_popover = popover;
  shortcuts_open = help;
}

-- The help with whatever popover was opened over it.
abbrev pub close_help : PageState → PageState
close_help s =
    if s.shortcuts_open
    then record s { shortcuts_open = false; price_popover = none }
    else close_top s

escape_tiers :
    (selected popover : Option String) (help : Bool) (s : PageState)
    → let t = with_tiers selected popover help s in
      (escape false t ≡ close_top t)
      × (open_tiers (escape false t) ≡ open_tiers t - 1)
      × (escape true t ≡ close_help t)
unfolding escape page_escape popover_escape modal_escape dismiss_price_popover dismiss_shortcuts
escape_tiers none none true s = (refl, refl, refl)
escape_tiers none (some _) true s = (refl, refl, refl)
escape_tiers (some _) none true s = (refl, refl, refl)
escape_tiers (some _) (some _) true s = (refl, refl, refl)
escape_tiers none none false s = (refl, refl, refl)
escape_tiers none (some _) false s = (refl, refl, refl)
escape_tiers (some _) none false s = (refl, refl, refl)
escape_tiers (some _) (some _) false s = (refl, refl, refl)

-- The three listeners together close exactly the topmost of the help, the price popover and the
-- selection, and so one of those that are open, unless the help opened before the popover: then one
-- press closes both, and without the help it closes the topmost as before.
pub escape_lem :
    (s : PageState)
    → (escape false s ≡ close_top s)
      × (open_tiers (escape false s) ≡ open_tiers s - 1)
      × (escape true s ≡ close_help s)
escape_lem s = escape_tiers s.selected_slot_key s.price_popover s.shortcuts_open s
