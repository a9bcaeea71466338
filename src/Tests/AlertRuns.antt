-- ===== src/Tests/AlertRuns.antt =====
-- A budget rule and a breaker rule of pdf_ingestion/pipeline/alerts/engine.py, and the engine's
-- theorems at them.
use smart_pdf_extractor.Prelude.{
  ℕ, ◌+◌, ◌≤◌, ◌≡◌, ◌↔◌, refl, true, Option, none, some, [], ◌∷◌, arith, string_eq, List, String,
  map,
}
use smart_pdf_extractor.Alerts.Periods.{monthly, period_start}
use smart_pdf_extractor.Alerts.History.{
  Entry, Notifier, webhook, notification_dispatcher, open_count,
}
use smart_pdf_extractor.Alerts.Engine.{
  Rule, Config, idle, firing, budget, circuit_breaker, Sources, total_tokens, evaluate_rule,
  evaluate_all_rules, BreakerEvent, closed, open_, handle_circuit_breaker_event,
}
use smart_pdf_extractor.Alerts.OneOpen.{
  Effect, AllTallied, evaluate_rule-Effect, budget_exact, evaluate_all-AllTallied,
}
use smart_pdf_extractor.Alerts.Breaker.{concerned, fired_by, reopened}

abbrev config : Config
config = record {
  threshold_tokens = 100;
  billing_period = monthly;
  threshold_percent = (5, 1);
  window_minutes = 15;
  service_name = "vlm";
}

abbrev tokens_rule : Rule
tokens_rule = record {
  id = "r1";
  enabled = true;
  state = idle;
  rule_type = budget;
  config = config;
  tenant_id = some "t1";
  channel = webhook;
  last_evaluated_at = none;
}

abbrev vlm_rule : Rule
vlm_rule = record tokens_rule { id = "r2"; state = firing; rule_type = circuit_breaker }

abbrev stores : Sources
stores = record {
  usage =
      record { tenant_id = "t1"; timestamp = 1736900000; total_tokens = 70 }
      ∷ record { tenant_id = "t2"; timestamp = 1736900000; total_tokens = 900 }
      ∷ record { tenant_id = "t1"; timestamp = 1736930000; total_tokens = 40 }
      ∷ [];
  jobs = [];
  abstention_stats = λ _ _. none;
}

abbrev noon : ℕ
noon = 1736942400

abbrev dispatcher : Option Notifier
dispatcher = some notification_dispatcher

evaluate_rule-Effect_run :
    Effect noon tokens_rule []
      (evaluate_rule dispatcher stores noon tokens_rule []).0
      (evaluate_rule dispatcher stores noon tokens_rule []).1
evaluate_rule-Effect_run = evaluate_rule-Effect dispatcher noon stores tokens_rule []

-- The other tenant's 900 tokens do not count.
tokens_of_t1 : total_tokens (some "t1") (period_start monthly noon) stores.usage ≡ 110
unfolding total_tokens period_start
tokens_of_t1 = refl

budget_exact_run :
    ((evaluate_rule dispatcher stores noon tokens_rule []).0.state ≡ firing)
    ↔ (100 ≤ total_tokens (some "t1") (period_start monthly noon) stores.usage)
budget_exact_run = budget_exact dispatcher noon stores tokens_rule [] refl refl (λ e. ground arith)

abbrev opened_before : Entry
opened_before = record {
  rule_id = "r2";
  tenant_id = some "t1";
  fired_at = 1;
  resolved_at = none;
  notification_sent = true;
  acknowledged_by = none;
  context = record { threshold = (0, 1); actual = (0, 1) };
}

evaluate_all-AllTallied_example :
    AllTallied
      (evaluate_all_rules dispatcher stores noon
        (tokens_rule ∷ vlm_rule ∷ [])
        (opened_before ∷ [])).0
      (evaluate_all_rules dispatcher stores noon
        (tokens_rule ∷ vlm_rule ∷ [])
        (opened_before ∷ [])).1
evaluate_all-AllTallied_example =
    evaluate_all-AllTallied dispatcher stores noon (tokens_rule ∷ vlm_rule ∷ [])
      (opened_before ∷ []) ((refl, tt), (tt, tt)) (refl, (refl, tt))

abbrev breaker_opened : BreakerEvent
breaker_opened = record {
  service_name = "vlm";
  tenant_id = some "t1";
  previous_state = closed;
  new_state = open_;
}

-- The breaker rule is firing with one open entry, and gets a second one; the other is left alone.
abbrev rules : List Rule
rules = tokens_rule ∷ vlm_rule ∷ []

reopened_example :
    let (rules', history') =
      handle_circuit_breaker_event dispatcher breaker_opened noon rules (opened_before ∷ []) in
    (rules' ≡ map (fired_by breaker_opened noon) rules)
    × ((rid : String)
        → open_count rid history'
          ≡ open_count rid (opened_before ∷ []) + concerned breaker_opened rid rules)
reopened_example = reopened dispatcher breaker_opened noon rules (opened_before ∷ []) refl refl

one_concerned : concerned breaker_opened "r2" rules ≡ 1
one_concerned = refl
