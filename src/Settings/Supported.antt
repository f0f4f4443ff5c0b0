-- ===== src/Settings/Supported.antt =====
-- What the fields and buttons of the pricing form keep.
use greenlink.Prelude.{
  ℕ, ◌+◌, ◌≤◌, min, ◌≡◌, refl, sym, subst, ap, ◌∙◌, arith, String, Bool, true, false, none, some,
  List, [], ◌∷◌, ◌++◌, map, if◌then◌else◌, ◌==◌, ◌!=◌, string_eq, nat_eq, filter, any, length, All,
  Bool-cases, inl, inr, length-map, length-append, eq_iff, ◌⊎◌,
}
use greenlink.Prelude.Text.{truthy, trim}
use greenlink.Types.Pricing.{
  PricingRuleAppliesTo, member, guest, staff, is_custom, PricingRule, PricingRuleInput,
  PricingMatrix,
}
use greenlink.Settings.{
  PricingRuleDraftForm, PricingDraftForm, blank_pricing_rule_draft, blank_pricing_draft,
  first_option, supports, RulePatch, to_applies_to, to_player_type, to_time_band, to_day_type,
  to_season, to_holes, to_time_band_ref, to_price, to_currency, patched_rule, patch_rule,
  update_pricing_rule_draft, add_pricing_rule_draft, remove_pricing_rule_draft, rule_draft_of,
  start_editing_pricing_matrix, pricing_input, build_pricing_payload, custom_ref,
}

-- The rules whose player type is one that its select offers.
abbrev pub IsOffered : PricingRuleDraftForm → Type 0
IsOffered rule = supports rule.applies_to rule.player_type ≡ true

-- The select of the player type offers those of the rule's own class.
abbrev pub IsChoice : List PricingRuleDraftForm → String → RulePatch → Type 0
IsChoice rules key (to_player_type v) =
    All (λ rule. ((rule.key != key) ≡ true) ⊎ (supports rule.applies_to v ≡ true)) rules
IsChoice rules key _ = Unit

-- What the fields and buttons do; the key of a new rule is new.
pub data Step (form : PricingDraftForm) : PricingDraftForm → Type 0 where
  patched :
      (key : String) (patch : RulePatch)
      → IsChoice form.rules key patch
      → Step form (update_pricing_rule_draft key patch form)
  added :
      (key : String)
      → any (λ rule. rule.key == key) form.rules ≡ false
      → Step form (add_pricing_rule_draft key form)
  removed : (key : String) → Step form (remove_pricing_rule_draft key form)

abbrev pub keys : String → List PricingRuleDraftForm → ℕ
keys k [] = 0
keys k (rule ∷ rules) = (if rule.key == k then 1 else 0) + keys k rules

-- The rules of a form that opened with some, or with none where `least` is 0.
pub record IsDraft (least : ℕ) (rules : List PricingRuleDraftForm) : Type 0 where
  pub offered : All IsOffered rules
  pub some_rule : least ≤ length rules
  pub keys_once : (k : String) → keys k rules ≤ 1

-- The form opens with a blank rule, or with the rules of a matrix of the backend, each of a player
-- type of its class, if it has any; their keys are new.
pub data Opened : PricingDraftForm → Type 0 where
  blank : (key : String) → Opened (blank_pricing_draft key)
  editing :
      (next_key : PricingRule → String) (matrix : PricingMatrix)
      → All IsOffered (map (λ rule. rule_draft_of (next_key rule) rule) matrix.rules)
      → ((k : String) → keys k (map (λ rule. rule_draft_of (next_key rule) rule) matrix.rules) ≤ 1)
      → Opened (start_editing_pricing_matrix next_key matrix)

pub data Reach (f : PricingDraftForm) : PricingDraftForm → Type 0 where
  here : Reach f f
  next : {g h : PricingDraftForm} → Reach f g → Step g h → Reach f h

supports-first : (v : PricingRuleAppliesTo) → supports v (first_option v) ≡ true
supports-first guest = refl
supports-first staff = refl
supports-first member = refl

patched_rule-key :
    (patch : RulePatch) (rule : PricingRuleDraftForm) → (patched_rule patch rule).key ≡ rule.key
patched_rule-key (to_applies_to v) rule = refl
patched_rule-key (to_player_type v) rule = refl
patched_rule-key (to_time_band v) rule = refl
patched_rule-key (to_day_type v) rule = refl
patched_rule-key (to_season v) rule = refl
patched_rule-key (to_holes v) rule = refl
patched_rule-key (to_time_band_ref v) rule = refl
patched_rule-key (to_price v) rule = refl
patched_rule-key (to_currency v) rule = refl

patch_rule-key :
    (key : String) (patch : RulePatch) (rule : PricingRuleDraftForm)
    → (patch_rule key patch rule).key ≡ rule.key
patch_rule-key key patch rule = elim (Bool-cases (rule.key != key)) [
  | inl other ↦ rw other refl
  | inr same ↦ rw same (patched_rule-key patch rule)
]

keys-patch :
    (k key : String) (patch : RulePatch) (rules : List PricingRuleDraftForm)
    → keys k (map (patch_rule key patch) rules) ≡ keys k rules
keys-patch k key patch [] = refl
keys-patch k key patch (rule ∷ rules) =
    rw (patch_rule-key key patch rule) (omega (arith, keys-patch k key patch rules))

-- A patch of a class keeps the player type or takes the first of the class.
class-IsOffered :
    (v : PricingRuleAppliesTo) (rule : PricingRuleDraftForm)
    → IsOffered (patched_rule (to_applies_to v) rule)
class-IsOffered v rule = elim (Bool-cases (supports v rule.player_type)) [
  | inl kept ↦
      let same : (patched_rule (to_applies_to v) rule).player_type ≡ rule.player_type =
        rw kept refl in
      ap (supports v) same ∙ kept
  | inr gone ↦
      let first : (patched_rule (to_applies_to v) rule).player_type ≡ first_option v =
        rw gone refl in
      ap (supports v) first ∙ supports-first v
]

rest-IsChoice :
    (key : String) (patch : RulePatch) (rule : PricingRuleDraftForm)
    (rules : List PricingRuleDraftForm)
    → IsChoice (rule ∷ rules) key patch
    → IsChoice rules key patch
rest-IsChoice key (to_player_type v) rule rules (c, cs) = cs
rest-IsChoice key (to_applies_to v) rule rules c = tt
rest-IsChoice key (to_time_band v) rule rules c = tt
rest-IsChoice key (to_day_type v) rule rules c = tt
rest-IsChoice key (to_season v) rule rules c = tt
rest-IsChoice key (to_holes v) rule rules c = tt
rest-IsChoice key (to_time_band_ref v) rule rules c = tt
rest-IsChoice key (to_price v) rule rules c = tt
rest-IsChoice key (to_currency v) rule rules c = tt

one_choice :
    (key : String) (patch : RulePatch) (rule : PricingRuleDraftForm)
    (rules : List PricingRuleDraftForm)
    → (rule.key != key) ≡ false
    → IsChoice (rule ∷ rules) key patch
    → IsOffered rule
    → IsOffered (patched_rule patch rule)
one_choice key (to_player_type v) rule rules same (inl other, cs) o = absurd cc
one_choice key (to_player_type v) rule rules same (inr offered, cs) o = offered
one_choice key (to_applies_to v) rule rules same c o = class-IsOffered v rule
one_choice key (to_time_band v) rule rules same c o = o
one_choice key (to_day_type v) rule rules same c o = o
one_choice key (to_season v) rule rules same c o = o
one_choice key (to_holes v) rule rules same c o = o
one_choice key (to_time_band_ref v) rule rules same c o = o
one_choice key (to_price v) rule rules same c o = o
one_choice key (to_currency v) rule rules same c o = o

patched-IsOffered :
    (key : String) (patch : RulePatch) (rules : List PricingRuleDraftForm)
    → IsChoice rules key patch
    → All IsOffered rules
    → All IsOffered (map (patch_rule key patch) rules)
patched-IsOffered key patch [] c h = tt
patched-IsOffered key patch (rule ∷ rules) c (o, h) = elim (Bool-cases (rule.key != key)) [
  | inl other ↦
      let kept : patch_rule key patch rule ≡ rule = rw other refl in
      (
        subst IsOffered (sym kept) o,
        patched-IsOffered key patch rules (rest-IsChoice key patch rule rules c) h,
      )
  | inr same ↦
      let changed : patch_rule key patch rule ≡ patched_rule patch rule = rw same refl in
      (
        subst IsOffered (sym changed) (one_choice key patch rule rules same c o),
        patched-IsOffered key patch rules (rest-IsChoice key patch rule rules c) h,
      )
]

snoc-IsOffered :
    (rules : List PricingRuleDraftForm) (rule : PricingRuleDraftForm)
    → All IsOffered rules
    → IsOffered rule
    → All IsOffered (rules ++ (rule ∷ []))
snoc-IsOffered [] rule h o = (o, tt)
snoc-IsOffered (r ∷ rules) rule (p, h) o = (p, snoc-IsOffered rules rule h o)

filter-IsOffered :
    (f : PricingRuleDraftForm → Bool) (rules : List PricingRuleDraftForm)
    → All IsOffered rules
    → All IsOffered (filter f rules)
filter-IsOffered f [] h = tt
filter-IsOffered f (rule ∷ rules) (o, h) = elim (Bool-cases (f rule)) [
  | inl kept ↦ rw kept (o, filter-IsOffered f rules h)
  | inr gone ↦ rw gone (filter-IsOffered f rules h)
]

keys-snoc :
    (k : String) (rules : List PricingRuleDraftForm) (rule : PricingRuleDraftForm)
    → keys k (rules ++ (rule ∷ [])) ≡ keys k rules + (if rule.key == k then 1 else 0)
keys-snoc k [] rule = omega arith
keys-snoc k (r ∷ rules) rule = omega (arith, keys-snoc k rules rule)

keys-absent :
    (k : String) (rules : List PricingRuleDraftForm)
    → any (λ rule. rule.key == k) rules ≡ false
    → keys k rules ≡ 0
keys-absent k [] h = refl
keys-absent k (rule ∷ rules) h = ground (arith, keys-absent k rules)

keys-filter :
    (f : PricingRuleDraftForm → Bool) (k : String) (rules : List PricingRuleDraftForm)
    → keys k (filter f rules) ≤ keys k rules
keys-filter f k [] = omega arith
keys-filter f k (rule ∷ rules) = ground (arith, keys-filter f k rules)

-- What a removal takes away are the rules of its key.
length-remove :
    (key : String) (rules : List PricingRuleDraftForm)
    → length (filter (λ rule. rule.key != key) rules) + keys key rules ≡ length rules
length-remove key [] = refl
length-remove key (rule ∷ rules) = ground (arith, length-remove key rules)

blank-IsOffered : (key : String) → IsOffered (blank_pricing_rule_draft key)
unfolding blank_pricing_rule_draft
blank-IsOffered key = refl

step :
    (least : ℕ) (f g : PricingDraftForm)
    → least ≤ 1
    → IsDraft least f.rules
    → Step f g
    → IsDraft least g.rules
unfolding update_pricing_rule_draft add_pricing_rule_draft remove_pricing_rule_draft
    blank_pricing_rule_draft
step least f g low h (patched key patch c) = record {
  offered = patched-IsOffered key patch f.rules c h.offered;
  some_rule = omega (arith, h.some_rule, length-map (patch_rule key patch) f.rules);
  keys_once = λ k. omega (arith, h.keys_once k, keys-patch k key patch f.rules);
}
step least f g low h (added key fresh) = record {
  offered = snoc-IsOffered f.rules (blank_pricing_rule_draft key) h.offered (blank-IsOffered key);
  some_rule = omega (arith, h.some_rule, length-append f.rules (blank_pricing_rule_draft key ∷ []));
  keys_once = λ k. ground (
    arith,
    h.keys_once k,
    keys-snoc k f.rules (blank_pricing_rule_draft key),
    keys-absent key f.rules fresh,
    eq_iff key k,
  );
}
step least f g low h (removed key) = elim (Bool-cases (length f.rules == 1)) [
  | inl last ↦ rw last h
  | inr more ↦ rw more (record {
    offered = filter-IsOffered (λ rule. rule.key != key) f.rules h.offered;
    some_rule = ground (arith, more, h.some_rule, h.keys_once key, length-remove key f.rules);
    keys_once = λ k. omega (arith, h.keys_once k, keys-filter (λ rule. rule.key != key) k f.rules);
  })
]

Opened-IsDraft : {f : PricingDraftForm} → Opened f → IsDraft (min 1 (length f.rules)) f.rules
unfolding blank_pricing_draft start_editing_pricing_matrix blank_pricing_rule_draft
Opened-IsDraft (blank key) = record {
  offered = (refl, tt);
  some_rule = omega arith;
  keys_once = λ k. ground arith;
}
Opened-IsDraft (editing next_key matrix o k) = record {
  offered = o;
  some_rule = omega arith;
  keys_once = k;
}

Reach-IsDraft :
    {f g : PricingDraftForm} → Opened f → Reach f g → IsDraft (min 1 (length f.rules)) g.rules
Reach-IsDraft o here = Opened-IsDraft o
Reach-IsDraft {f} o (next {g} {h} r st) =
    step (min 1 (length f.rules)) g h (omega arith) (Reach-IsDraft o r) st

-- A rule as it is sent: of a player type of its class, and with a reference just for a window of
-- its own, where it is not empty.
abbrev pub IsSentRule : {Number : Type 0} → PricingRuleInput Number → Type 0
IsSentRule rule =
    (supports rule.applies_to rule.player_type ≡ true)
    × (((is_custom rule.time_band ≡ false) × (rule.time_band_ref ≡ none))
        ⊎ ((is_custom rule.time_band ≡ true)
            × ((value : String) × ((rule.time_band_ref ≡ some value) × (truthy value ≡ true)))))

custom_ref-truthy : (v : String) → truthy (custom_ref v) ≡ true
custom_ref-truthy v = elim (Bool-cases (truthy (trim v))) [
  | inl given ↦ rw given given
  | inr empty ↦ rw empty refl
]

module _ {Number : Type 0} (to_number : String → Number) (upper_case : String → String) where
  input-IsSentRule :
      (rule : PricingRuleDraftForm)
      → IsOffered rule
      → IsSentRule (pricing_input to_number upper_case rule)
  input-IsSentRule rule o = elim (Bool-cases (is_custom rule.time_band)) [
    | inl own ↦ (
      o,
      inr (
        own,
        (custom_ref rule.time_band_ref, (rw own refl, custom_ref-truthy rule.time_band_ref)),
      ),
    )
    | inr standard ↦ (o, inl (standard, rw standard refl))
  ]

  rules-IsSentRule :
      (rules : List PricingRuleDraftForm)
      → All IsOffered rules
      → All IsSentRule (map (pricing_input to_number upper_case) rules)
  rules-IsSentRule [] h = tt
  rules-IsSentRule (rule ∷ rules) (o, h) = (input-IsSentRule rule o, rules-IsSentRule rules h)

  -- Whatever the fields and buttons of the pricing form are used for, from a blank form or from a
  -- matrix whose rules are each of a player type of their class, every rule that is sent is of a
  -- player type of its class, and has a reference to a window just where the rule is for a window of
  -- its own, which then is not empty. A form that opens with a rule is sent with one at least; only
  -- a matrix without rules can be sent without any.
  pub payload-IsSentRule :
      {opened form : PricingDraftForm}
      → Opened opened
      → Reach opened form
      → (min 1 (length opened.rules) ≤ length (build_pricing_payload to_number upper_case form))
        × All IsSentRule (build_pricing_payload to_number upper_case form)
  unfolding build_pricing_payload
  payload-IsSentRule {opened} {form} o r =
      let d = Reach-IsDraft o r in
      (
        omega (arith, d.some_rule, length-map (pricing_input to_number upper_case) form.rules),
        rules-IsSentRule form.rules d.offered,
      )
