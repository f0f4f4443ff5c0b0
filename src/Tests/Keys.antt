-- ===== src/Tests/Keys.antt =====
-- Keys and clicks on the page of a morning.
use greenlink.Prelude.{false, true, ◌≡◌, none, some, List, [], ◌∷◌, ◌-◌}
use greenlink.Page.{PageState, escape}
use greenlink.Page.Tiers.{close_top, close_help, open_tiers, escape_lem}
use greenlink.Page.Shown.{PageEvent, refetches, selects, clicks_price, presses_escape, opens_help}
use greenlink.Tests.Data.{day_of}

abbrev morning : PageState
morning = record {
  course_id = some "c1";
  selected_date = "2026-05-14";
  interval_override = none;
  day = some (day_of "c1");
  selected_slot_key = some "t1";
  price_popover = some "t2";
  shortcuts_open = true;
}

escape_lem_example :
    (escape false morning ≡ close_top morning)
    × (open_tiers (escape false morning) ≡ open_tiers morning - 1)
    × (escape true morning ≡ close_help morning)
escape_lem_example = escape_lem morning

abbrev clicks : List PageEvent
clicks =
    selects (some "t9")
    ∷ clicks_price "t1"
    ∷ opens_help
    ∷ presses_escape false
    ∷ refetches (some (day_of "c1"))
    ∷ []
