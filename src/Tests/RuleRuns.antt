-- ===== src/Tests/RuleRuns.antt =====
-- Rules that are created, changed and refused.
use smart_pdf_extractor.Prelude.{
  is_space, pos, ◌≡◌, refl, true, none, some, List, [], ◌∷◌, All, Text,
}
use smart_pdf_extractor.Dict
use smart_pdf_extractor.Alerts.Engine.{budget}
use smart_pdf_extractor.Alerts.History.{webhook}
use smart_pdf_extractor.Alerts.Validation.{
  integer, text, weekly, validate_rule_config, validate_notification_target,
}
use smart_pdf_extractor.Alerts.Rules.{
  AlertRuleCreate, AlertRuleUpdate, create_alert_rule, update_alert_rule, delete_alert_rule,
}
use smart_pdf_extractor.Alerts.RulesKept.{
  IsWellFormed, Request, create, update, delete, serve_all, serve_all-IsWellFormed,
}

-- http://x
abbrev url : Text
url = b'h' ∷ b't' ∷ b't' ∷ b'p' ∷ b':' ∷ b'/' ∷ b'/' ∷ b'x' ∷ []

abbrev body : AlertRuleCreate
body = record {
  name = "tokens";
  rule_type = budget;
  tenant_id = none;
  config = ("threshold_tokens", integer (pos 1000)) ∷ ("billing_period", text weekly) ∷ [];
  notification_channel = webhook;
  notification_target = url;
  enabled = true;
}

-- An update to a target that is no URL, and to a threshold of zero.
abbrev to_target : Text → AlertRuleUpdate
to_target t = record {
  name = none;
  config = none;
  notification_channel = none;
  notification_target = some t;
  enabled = none;
}

abbrev requests : List Request
requests = create body "r1" 5 ∷ update "r1" (to_target (b'x' ∷ [])) ∷ delete "r2" ∷ []

bad_target_refused : serve_all requests [] ≡ (create_alert_rule body "r1" 5 []).0
unfolding create_alert_rule update_alert_rule delete_alert_rule validate_rule_config
    validate_notification_target Dict.lookup is_space
bad_target_refused = refl

serve_all-IsWellFormed_example : All IsWellFormed (serve_all requests [])
serve_all-IsWellFormed_example = serve_all-IsWellFormed requests [] tt
