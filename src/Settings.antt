-- ===== src/Settings.antt =====
-- frontend/src/pages/admin-golf-settings-page.tsx: the draft of a pricing matrix, and the errors at
-- the fields of the guided setup. `to_number` and `upper_case` are JavaScript's `Number` and
-- `toUpperCase`; the keys that `nextPricingRuleKey` makes are arguments.
pub mod Supported
use greenlink.Prelude.{
  ℕ, String, Bool, true, false, Option, none, some, List, [], ◌∷◌, ◌++◌, map, not, if◌then◌else◌,
  ◌==◌, ◌!=◌, string_eq, nat_eq, filter, any, length,
}
use greenlink.Prelude.Text.{show, trim, truthy}
use greenlink.Types.Pricing.{
  PricingRuleAppliesTo, member, guest, staff, PricingPlayerType, member_standard,
  visitor_affiliated, visitor_non_affiliated, scholar, student, pensioner, staff_courtesy,
  player_type_eq, PricingDayType, weekday, PricingSeason, off_peak, PricingTimeBand, any_time,
  is_custom, PricingRule, PricingRuleInput, PricingMatrix,
}
use greenlink.Sheet.Occupancy.{get_or}

pub record PricingRuleDraftForm : Type 0 where
  pub key : String
  pub applies_to : PricingRuleAppliesTo
  pub player_type : PricingPlayerType
  pub holes : String
  pub day_type : PricingDayType
  pub season : PricingSeason
  pub time_band : PricingTimeBand
  pub time_band_ref : String
  pub price : String
  pub currency : String

pub record PricingDraftForm : Type 0 where
  pub name : String
  pub rules : List PricingRuleDraftForm

unfoldable pub blank_pricing_rule_draft : String → PricingRuleDraftForm
blank_pricing_rule_draft next_key = record {
  key = next_key;
  applies_to = guest;
  player_type = visitor_affiliated;
  holes = "18";
  day_type = weekday;
  season = off_peak;
  time_band = any_time;
  time_band_ref = "";
  price = "575.00";
  currency = "ZAR";
}

unfoldable pub blank_pricing_draft : String → PricingDraftForm
blank_pricing_draft next_key = record { name = ""; rules = blank_pricing_rule_draft next_key ∷ [] }

-- The first option, and the others.
abbrev pub first_option : PricingRuleAppliesTo → PricingPlayerType
first_option guest = visitor_affiliated
first_option staff = staff_courtesy
first_option member = member_standard

abbrev other_options : PricingRuleAppliesTo → List PricingPlayerType
other_options guest = visitor_non_affiliated ∷ []
other_options staff = []
other_options member = scholar ∷ student ∷ pensioner ∷ []

abbrev pub pricing_player_type_options : PricingRuleAppliesTo → List PricingPlayerType
pricing_player_type_options applies_to = first_option applies_to ∷ other_options applies_to

abbrev pub supports : PricingRuleAppliesTo → PricingPlayerType → Bool
supports applies_to player_type =
    any (λ option. option == player_type) (pricing_player_type_options applies_to)

-- The patches that the fields of a rule send.
pub data RulePatch : Type 0 where
  to_applies_to : PricingRuleAppliesTo → RulePatch
  to_player_type : PricingPlayerType → RulePatch
  to_time_band : PricingTimeBand → RulePatch
  to_day_type : PricingDayType → RulePatch
  to_season : PricingSeason → RulePatch
  to_holes to_time_band_ref to_price to_currency : String → RulePatch

abbrev pub patched_rule : RulePatch → PricingRuleDraftForm → PricingRuleDraftForm
patched_rule (to_applies_to v) rule = record rule {
  applies_to = v;
  player_type = if supports v rule.player_type then rule.player_type else first_option v;
}
patched_rule (to_player_type v) rule = record rule { player_type = v }
patched_rule (to_time_band v) rule = record rule {
  time_band = v;
  time_band_ref = if is_custom v then rule.time_band_ref else "";
}
patched_rule (to_day_type v) rule = record rule { day_type = v }
patched_rule (to_season v) rule = record rule { season = v }
patched_rule (to_holes v) rule = record rule { holes = v }
patched_rule (to_time_band_ref v) rule = record rule { time_band_ref = v }
patched_rule (to_price v) rule = record rule { price = v }
patched_rule (to_currency v) rule = record rule { currency = v }

abbrev pub patch_rule : String → RulePatch → PricingRuleDraftForm → PricingRuleDraftForm
patch_rule key patch rule = if rule.key != key then rule else patched_rule patch rule

unfoldable pub update_pricing_rule_draft : String → RulePatch → PricingDraftForm → PricingDraftForm
update_pricing_rule_draft key patch current = record current {
  rules = map (patch_rule key patch) current.rules;
}

unfoldable pub add_pricing_rule_draft : String → PricingDraftForm → PricingDraftForm
add_pricing_rule_draft next_key current = record current {
  rules = current.rules ++ (blank_pricing_rule_draft next_key ∷ []);
}

unfoldable pub remove_pricing_rule_draft : String → PricingDraftForm → PricingDraftForm
remove_pricing_rule_draft key current = record current {
  rules =
      if length current.rules == 1
      then current.rules
      else filter (λ rule. rule.key != key) current.rules;
}

abbrev pub rule_draft_of : String → PricingRule → PricingRuleDraftForm
rule_draft_of next_key rule = record {
  key = next_key;
  applies_to = rule.applies_to;
  player_type = rule.player_type;
  holes = show rule.holes;
  day_type = rule.day_type;
  season = rule.season;
  time_band = rule.time_band;
  time_band_ref = get_or rule.time_band_ref "";
  price = rule.price;
  currency = rule.currency;
}

-- The draft that `startEditingPricingMatrix` sets; `next_key` gives each rule its key.
unfoldable pub start_editing_pricing_matrix :
    (PricingRule → String) → PricingMatrix → PricingDraftForm
start_editing_pricing_matrix next_key matrix = record {
  name = matrix.name;
  rules = map (λ rule. rule_draft_of (next_key rule) rule) matrix.rules;
}

abbrev custom_ref : String → String
custom_ref value = if truthy (trim value) then trim value else "custom-window"

module _ {Number : Type 0} (to_number : String → Number) (upper_case : String → String) where
  abbrev pub pricing_input : PricingRuleDraftForm → PricingRuleInput Number
  pricing_input rule = record {
    applies_to = rule.applies_to;
    player_type = rule.player_type;
    holes = to_number rule.holes;
    day_type = rule.day_type;
    season = rule.season;
    time_band = rule.time_band;
    time_band_ref = if is_custom rule.time_band then some (custom_ref rule.time_band_ref) else none;
    price = rule.price;
    currency = upper_case rule.currency;
    active = true;
  }

  unfoldable pub build_pricing_payload : PricingDraftForm → List (PricingRuleInput Number)
  build_pricing_payload form = map pricing_input form.rules
