-- ===== src/Tests/Settings.antt =====
-- The form of a pricing matrix.
use greenlink.Prelude.{min, length, ◌≤◌, All}
use greenlink.Types.Pricing.{staff, custom}
use greenlink.Settings.{
  PricingDraftForm, blank_pricing_draft, to_applies_to, to_time_band, update_pricing_rule_draft,
  build_pricing_payload,
}
use greenlink.Settings.Supported.{blank, here, next, patched, IsSentRule, payload-IsSentRule}

-- A rule for staff, in a window of its own.
abbrev courtesy : PricingDraftForm
courtesy =
    update_pricing_rule_draft "k1" (to_time_band custom)
      (update_pricing_rule_draft "k1" (to_applies_to staff) (blank_pricing_draft "k1"))

payload-IsSentRule_example :
    (min 1 (length (blank_pricing_draft "k1").rules)
      ≤ length (build_pricing_payload (λ holes. holes) (λ s. s) courtesy))
    × All IsSentRule (build_pricing_payload (λ holes. holes) (λ s. s) courtesy)
payload-IsSentRule_example =
    payload-IsSentRule (λ holes. holes) (λ s. s) (blank "k1")
      (next (next here (patched "k1" (to_applies_to staff) tt))
        (patched "k1" (to_time_band custom) tt))
