-- ===== src/Alerts/RulesKept.antt =====
-- The rules stay well formed (pdf_ingestion/api/routes/admin_alerts.py).
use smart_pdf_extractor.Prelude.{
  ℕ, ◌≡◌, refl, String, Option, none, some, List, [], ◌∷◌, ◌++◌, All, ◌==◌, string_eq, get_or,
  Bool-cases, inl, inr,
}
use smart_pdf_extractor.Alerts.Engine.{RuleType}
use smart_pdf_extractor.Alerts.Validation.{
  RuleConfig, validate_rule_config, validate_notification_target,
}
use smart_pdf_extractor.Alerts.Rules.{
  AlertRule, AlertRuleCreate, AlertRuleUpdate, add_rule, create_alert_rule, updated, config_errors,
  change, update_rule, changed_or, update_alert_rule, delete_alert_rule,
}

-- The config fits the type of the rule, and the target fits its channel.
abbrev pub IsWellFormed : AlertRule → Type 0
IsWellFormed r =
    (validate_rule_config r.rule_type r.config ≡ [])
    × (validate_notification_target r.notification_channel r.notification_target ≡ none)

-- A request that changes the rules.
pub data Request : Type 0 where
  create : AlertRuleCreate → String → ℕ → Request
  update : String → AlertRuleUpdate → Request
  delete : String → Request

abbrev pub serve : Request → List AlertRule → List AlertRule
serve (create body new_id now) rules = (create_alert_rule body new_id now rules).0
serve (update rule_id body) rules = (update_alert_rule rule_id body rules).0
serve (delete rule_id) rules = (delete_alert_rule rule_id rules).0

abbrev pub serve_all : List Request → List AlertRule → List AlertRule
serve_all [] rules = rules
serve_all (r ∷ requests) rules = serve_all requests (serve r rules)

All-append :
    (rules : List AlertRule) (r : AlertRule)
    → All IsWellFormed rules
    → IsWellFormed r
    → All IsWellFormed (rules ++ r ∷ [])
All-append [] r h k = (k, tt)
All-append (q ∷ rules) r h k = (h.0, All-append rules r h.1 k)

add_rule-kept :
    (errors : List String) (target : Option String) (r : AlertRule) (rules : List AlertRule)
    → validate_rule_config r.rule_type r.config ≡ errors
    → validate_notification_target r.notification_channel r.notification_target ≡ target
    → All IsWellFormed rules
    → All IsWellFormed (add_rule errors target r rules).0
add_rule-kept (e ∷ errors) target r rules h k all = all
add_rule-kept [] (some e) r rules h k all = all
add_rule-kept [] none r rules h k all = All-append rules r all (h, k)

config_kept :
    (t : RuleType) (config : RuleConfig) (o : Option RuleConfig)
    → validate_rule_config t config ≡ []
    → config_errors t o ≡ []
    → validate_rule_config t (get_or o config) ≡ []
config_kept t config none h k = h
config_kept t config (some c) h k = k

change-kept :
    (errors : List String) (target : Option String) (body : AlertRuleUpdate) (r : AlertRule)
    → config_errors r.rule_type body.config ≡ errors
    → validate_notification_target
        (updated body r).notification_channel
        (updated body r).notification_target
      ≡ target
    → IsWellFormed r
    → IsWellFormed (changed_or (change errors target (updated body r)) r)
change-kept (e ∷ errors) target body r h k w = w
change-kept [] (some e) body r h k w = w
change-kept [] none body r h k w = (config_kept r.rule_type r.config body.config w.0 h, k)

update-kept :
    (rule_id : String) (body : AlertRuleUpdate) (rules : List AlertRule)
    → All IsWellFormed rules
    → All IsWellFormed (update_alert_rule rule_id body rules).0
unfolding update_alert_rule update_rule
update-kept rule_id body [] h = h
update-kept rule_id body (r ∷ rules) h = elim (Bool-cases (r.id == rule_id)) [
  | inl e ↦ rw e (change-kept _ _ body r refl refl h.0, h.1)
  | inr e ↦ rw e (h.0, update-kept rule_id body rules h.1)
]

delete-kept :
    (rule_id : String) (rules : List AlertRule)
    → All IsWellFormed rules
    → All IsWellFormed (delete_alert_rule rule_id rules).0
unfolding delete_alert_rule
delete-kept rule_id [] h = h
delete-kept rule_id (r ∷ rules) h = elim (Bool-cases (r.id == rule_id)) [
  | inl e ↦ rw e h.1
  | inr e ↦ rw e (h.0, delete-kept rule_id rules h.1)
]

serve-kept :
    (r : Request) (rules : List AlertRule)
    → All IsWellFormed rules
    → All IsWellFormed (serve r rules)
unfolding create_alert_rule
serve-kept (create body new_id now) rules h = add_rule-kept _ _ _ rules refl refl h
serve-kept (update rule_id body) rules h = update-kept rule_id body rules h
serve-kept (delete rule_id) rules h = delete-kept rule_id rules h

-- Whatever is created, updated and deleted, in any order, each rule in the store has a config that
-- its type accepts and a target that its channel accepts, if each had before.
pub serve_all-IsWellFormed :
    (requests : List Request) (rules : List AlertRule)
    → All IsWellFormed rules
    → All IsWellFormed (serve_all requests rules)
serve_all-IsWellFormed [] rules h = h
serve_all-IsWellFormed (r ∷ requests) rules h =
    serve_all-IsWellFormed requests (serve r rules) (serve-kept r rules h)
