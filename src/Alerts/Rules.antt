-- ===== src/Alerts/Rules.antt =====
-- The rules that dashboard users set (pdf_ingestion/api/routes/admin_alerts.py): the handlers that
-- create, update and delete one.
use smart_pdf_extractor.Prelude.{
  ℕ, String, Bool, true, Option, none, some, List, [], ◌∷◌, ◌++◌, ◌==◌, string_eq, nat_eq, list_eq,
  if◌then◌else◌, Text, get_or,
}
use smart_pdf_extractor.Alerts.Engine.{RuleType, RuleState, idle}
use smart_pdf_extractor.Alerts.History.{Channel}
use smart_pdf_extractor.Alerts.Validation.{
  RuleConfig, validate_rule_config, validate_notification_target,
}

pub record AlertRule : Type 0 where
  pub id : String
  pub name : String
  pub rule_type : RuleType
  pub tenant_id : Option String
  pub config : RuleConfig
  pub notification_channel : Channel
  pub notification_target : Text
  pub enabled : Bool
  pub state : RuleState
  pub last_evaluated_at : Option ℕ
  pub created_at : ℕ

pub record AlertRuleCreate : Type 0 where
  pub name : String
  pub rule_type : RuleType
  pub tenant_id : Option String
  pub config : RuleConfig
  pub notification_channel : Channel
  pub notification_target : Text
  pub enabled : Bool

pub record AlertRuleUpdate : Type 0 where
  pub name : Option String
  pub config : Option RuleConfig
  pub notification_channel : Option Channel
  pub notification_target : Option Text
  pub enabled : Option Bool

-- An answer: a value, or a status code with its detail.
pub data Answer (A : Type 0) : Type 0 where
  answer : A → Answer A
  http_error : ℕ → List String → Answer A

abbrev pub add_rule :
    List String → Option String → AlertRule → List AlertRule → List AlertRule × Answer AlertRule
add_rule (e ∷ errors) target rule rules = (rules, http_error 422 (e ∷ errors))
add_rule [] (some e) rule rules = (rules, http_error 422 (e ∷ []))
add_rule [] none rule rules = (rules ++ rule ∷ [], answer rule)

-- The new identifier and the clock are arguments.
unfoldable pub create_alert_rule :
    AlertRuleCreate → String → ℕ → List AlertRule → List AlertRule × Answer AlertRule
create_alert_rule body new_id now rules =
    add_rule (validate_rule_config body.rule_type body.config)
      (validate_notification_target body.notification_channel body.notification_target)
      (record {
        id = new_id;
        name = body.name;
        rule_type = body.rule_type;
        tenant_id = body.tenant_id;
        config = body.config;
        notification_channel = body.notification_channel;
        notification_target = body.notification_target;
        enabled = body.enabled;
        state = idle;
        last_evaluated_at = none;
        created_at = now;
      })
      rules

abbrev pub updated : AlertRuleUpdate → AlertRule → AlertRule
updated body rule = record rule {
  name = get_or body.name rule.name;
  config = get_or body.config rule.config;
  notification_channel = get_or body.notification_channel rule.notification_channel;
  notification_target = get_or body.notification_target rule.notification_target;
  enabled = get_or body.enabled rule.enabled;
}

abbrev pub config_errors : RuleType → Option RuleConfig → List String
config_errors rule_type none = []
config_errors rule_type (some config) = validate_rule_config rule_type config

-- The update of the rule that was found, or the error.
abbrev pub change : List String → Option String → AlertRule → Answer AlertRule
change (e ∷ errors) target rule = http_error 422 (e ∷ errors)
change [] (some e) rule = http_error 422 (e ∷ [])
change [] none rule = answer rule

unfoldable pub update_rule : AlertRuleUpdate → AlertRule → Answer AlertRule
update_rule body rule =
    change (config_errors rule.rule_type body.config)
      (validate_notification_target (get_or body.notification_channel rule.notification_channel)
        (get_or body.notification_target rule.notification_target))
      (updated body rule)

abbrev pub changed_or : Answer AlertRule → AlertRule → AlertRule
changed_or (answer r) rule = r
changed_or (http_error code detail) rule = rule

abbrev pub with_rule :
    {A : Type 0} → AlertRule → List AlertRule × Answer A → List AlertRule × Answer A
with_rule rule (rules, a) = (rule ∷ rules, a)

-- The first rule with the identifier is updated in place.
unfoldable pub update_alert_rule :
    String → AlertRuleUpdate → List AlertRule → List AlertRule × Answer AlertRule
unfolding update_rule
update_alert_rule rule_id body [] = ([], http_error 404 ("Alert rule not found" ∷ []))
update_alert_rule rule_id body (rule ∷ rules) =
    let later = with_rule rule (update_alert_rule rule_id body rules) in
    if rule.id == rule_id
    then (changed_or (update_rule body rule) rule ∷ rules, update_rule body rule)
    else later

unfoldable pub delete_alert_rule : String → List AlertRule → List AlertRule × Answer Bool
delete_alert_rule rule_id [] = ([], http_error 404 ("Alert rule not found" ∷ []))
delete_alert_rule rule_id (rule ∷ rules) =
    let later = with_rule rule (delete_alert_rule rule_id rules) in
    if rule.id == rule_id then (rules, answer true) else later
