-- ===== src/Types/Pricing.antt =====
-- frontend/src/types/operations.ts: the pricing of a round.
use greenlink.Prelude.{ℕ, String, ◌≡◌, ◌↔◌, Bool, true, false, Option, List, arith, Eq}

pub data PricingRuleAppliesTo : Type 0 where
  member guest staff : PricingRuleAppliesTo

pub data PricingPlayerType : Type 0 where
  member_standard visitor_affiliated visitor_non_affiliated scholar student pensioner
        staff_courtesy :
      PricingPlayerType

abbrev pub player_type_beq : PricingPlayerType → PricingPlayerType → Bool
player_type_beq member_standard member_standard = true
player_type_beq visitor_affiliated visitor_affiliated = true
player_type_beq visitor_non_affiliated visitor_non_affiliated = true
player_type_beq scholar scholar = true
player_type_beq student student = true
player_type_beq pensioner pensioner = true
player_type_beq staff_courtesy staff_courtesy = true
player_type_beq _ _ = false

pub player_type_beq_iff : (a b : PricingPlayerType) → (player_type_beq a b ≡ true) ↔ (a ≡ b)
player_type_beq_iff a b = ground arith

instance abbrev pub player_type_eq : Eq PricingPlayerType
player_type_eq = record { beq = player_type_beq; beq_iff = player_type_beq_iff }

pub data PricingDayType : Type 0 where
  any_day weekday weekend public_holiday : PricingDayType

pub data PricingSeason : Type 0 where
  any_season peak off_peak : PricingSeason

pub data PricingTimeBand : Type 0 where
  any_time morning afternoon custom : PricingTimeBand

abbrev pub is_custom : PricingTimeBand → Bool
is_custom custom = true
is_custom _ = false

pub record PricingRule : Type 0 where
  pub id : String
  pub applies_to : PricingRuleAppliesTo
  pub player_type : PricingPlayerType
  pub holes : ℕ
  pub day_type : PricingDayType
  pub season : PricingSeason
  pub time_band : PricingTimeBand
  pub time_band_ref : Option String
  pub price : String
  pub currency : String
  pub active : Bool

-- `Number` is the type of JavaScript's numbers.
pub record PricingRuleInput (Number : Type 0) : Type 0 where
  pub applies_to : PricingRuleAppliesTo
  pub player_type : PricingPlayerType
  pub holes : Number
  pub day_type : PricingDayType
  pub season : PricingSeason
  pub time_band : PricingTimeBand
  pub time_band_ref : Option String
  pub price : String
  pub currency : String
  pub active : Bool

pub record PricingMatrix : Type 0 where
  pub id : String
  pub name : String
  pub active : Bool
  pub rules : List PricingRule
