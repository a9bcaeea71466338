-- ===== src/Alerts/Engine.antt =====
-- AlertEngine of pdf_ingestion/pipeline/alerts/engine.py: rules, one evaluation cycle, and circuit
-- breaker events. A rule's config holds the entries of its dict with the defaults of the code; a
-- percentage is a fraction, so that a rate is compared by cross-multiplication, without rounding.
use smart_pdf_extractor.Prelude.{
  ℕ, ◌+◌, ◌*◌, String, Bool, true, false, ◌&&◌, Option, none, some, List, [], ◌∷◌, ltb, leb, ◌==◌,
  string_eq, if◌then◌else◌, count_if,
}
use smart_pdf_extractor.Alerts.Periods.{BillingPeriod, period_start}
use smart_pdf_extractor.Alerts.History.{
  EventType, fired, recovered, Channel, Context, Entry, Notifier, emit_notification,
}

pub data RuleType : Type 0 where
  budget error_rate abstention_rate circuit_breaker : RuleType

pub data RuleState : Type 0 where
  idle firing resolved : RuleState

pub record Config : Type 0 where
  pub threshold_tokens : ℕ
  pub billing_period : BillingPeriod
  pub threshold_percent : ℕ × ℕ
  pub window_minutes : ℕ
  pub service_name : String

pub record Rule : Type 0 where
  pub id : String
  pub enabled : Bool
  pub state : RuleState
  pub rule_type : RuleType
  pub config : Config
  pub tenant_id : Option String
  pub channel : Channel
  pub last_evaluated_at : Option ℕ

pub record UsageRecord : Type 0 where
  pub tenant_id : String
  pub timestamp : ℕ
  pub total_tokens : ℕ

pub record JobRecord : Type 0 where
  pub tenant_id : String
  pub created_at : ℕ
  pub failed : Bool

-- What a cycle reads: the stores, and JobRepo.abstention_stats, which may raise.
pub record Sources : Type 0 where
  pub usage : List UsageRecord
  pub jobs : List JobRecord
  pub abstention_stats : ℕ → Option String → Option (ℕ × ℕ)

abbrev pub is_firing : RuleState → Bool
is_firing firing = true
is_firing _ = false

abbrev pub is_resolved : RuleState → Bool
is_resolved resolved = true
is_resolved _ = false

-- `not tenant_id or tenant == tenant_id`
abbrev pub in_scope : Option String → String → Bool
in_scope none t = true
in_scope (some tid) t = if tid == "" then true else t == tid

abbrev pub emit : Option Notifier → Rule → EventType → Context → ℕ → List Entry → List Entry
emit notifier r event context now h =
    emit_notification notifier r.channel r.id r.tenant_id event context now h

-- The end of each evaluation: a crossed threshold fires a rule that is not firing, and a normal
-- value resolves one that is.
unfoldable pub transition :
    Option Notifier → ℕ → Bool → Context → Rule → List Entry → Rule × List Entry
transition notifier now crossed context r h =
    if crossed
    then if is_firing r.state
      then (r, h)
      else (record r { state = firing }, emit notifier r fired context now h)
    else if is_firing r.state
    then (record r { state = resolved }, emit notifier r recovered context now h)
    else (r, h)

-- The tokens of the rule's tenant since the start of the period.
unfoldable pub total_tokens : Option String → ℕ → List UsageRecord → ℕ
total_tokens tid since [] = 0
total_tokens tid since (u ∷ us) =
    (if in_scope tid u.tenant_id && leb since u.timestamp then u.total_tokens else 0)
    + total_tokens tid since us

-- `failed / total * 100 > threshold`, with the threshold a fraction.
abbrev pub rate_exceeds : ℕ → ℕ → ℕ × ℕ → Bool
rate_exceeds failed total (num, den) = ltb (num * total) (failed * 100 * den)

unfoldable pub evaluate_budget_rule :
    Option Notifier → Sources → ℕ → Rule → List Entry → Rule × List Entry
evaluate_budget_rule notifier src now r h =
    let total = total_tokens r.tenant_id (period_start r.config.billing_period now) src.usage in
    transition notifier now (leb r.config.threshold_tokens total)
      (record { threshold = (r.config.threshold_tokens, 1); actual = (total, 1) }) r h

-- The jobs of the rule's tenant in the window that pass a further test.
abbrev pub in_window : Option String → ℕ → ℕ → JobRecord → Bool
in_window tid minutes now j = in_scope tid j.tenant_id && leb now (j.created_at + minutes * 60)

-- With no jobs the rate is 0, which is above no threshold.
unfoldable pub evaluate_error_rate_rule :
    Option Notifier → Sources → ℕ → Rule → List Entry → Rule × List Entry
evaluate_error_rate_rule notifier src now r h =
    let total = count_if (in_window r.tenant_id r.config.window_minutes now) src.jobs in
    let failed =
      count_if (λ j. in_window r.tenant_id r.config.window_minutes now j && j.failed) src.jobs in
    transition notifier now (rate_exceeds failed total r.config.threshold_percent)
      (record { threshold = r.config.threshold_percent; actual = (failed * 100, total) }) r h

unfoldable pub evaluate_abstention_rate_rule :
    Option Notifier → Sources → ℕ → Rule → List Entry → Rule × List Entry
evaluate_abstention_rate_rule notifier src now r h =
    elim (src.abstention_stats r.config.window_minutes r.tenant_id) [
      | none ↦ (r, h)
      | some (total, flagged) ↦
          transition notifier now
            (ltb 0 total && rate_exceeds flagged total r.config.threshold_percent)
            (record { threshold = r.config.threshold_percent; actual = (flagged * 100, total) }) r h
    ]

-- Breaker rules are event-driven and are not polled.
unfoldable pub evaluate_by_type :
    RuleType → Option Notifier → Sources → ℕ → Rule → List Entry → Rule × List Entry
unfolding evaluate_budget_rule evaluate_error_rate_rule evaluate_abstention_rate_rule
evaluate_by_type budget notifier src now r h = evaluate_budget_rule notifier src now r h
evaluate_by_type error_rate notifier src now r h = evaluate_error_rate_rule notifier src now r h
evaluate_by_type abstention_rate notifier src now r h =
    evaluate_abstention_rate_rule notifier src now r h
evaluate_by_type circuit_breaker notifier src now r h = (r, h)

abbrev pub stamp : ℕ → Rule × List Entry → Rule × List Entry
stamp now (r, h) = (record r { last_evaluated_at = some now }, h)

-- The body of the loop of evaluate_all_rules. A resolved rule becomes idle and waits for the next
-- cycle.
unfoldable pub evaluate_rule : Option Notifier → Sources → ℕ → Rule → List Entry → Rule × List Entry
evaluate_rule notifier src now r h =
    let evaluated = stamp now (evaluate_by_type r.rule_type notifier src now r h) in
    if r.enabled
    then if is_resolved r.state
      then (record r { state = idle; last_evaluated_at = some now }, h)
      else evaluated
    else (r, h)

unfoldable pub evaluate_all_rules :
    Option Notifier → Sources → ℕ → List Rule → List Entry → List Rule × List Entry
evaluate_all_rules notifier src now [] h = ([], h)
evaluate_all_rules notifier src now (r ∷ rs) h =
    let (r', h') = evaluate_rule notifier src now r h in
    let (rs', h'') = evaluate_all_rules notifier src now rs h' in (r' ∷ rs', h'')

pub data BreakerState : Type 0 where
  closed open_ other : BreakerState

pub record BreakerEvent : Type 0 where
  pub service_name : String
  pub tenant_id : Option String
  pub previous_state : BreakerState
  pub new_state : BreakerState

abbrev pub is_breaker : RuleType → Bool
is_breaker circuit_breaker = true
is_breaker _ = false

-- `not rule_tenant or rule_tenant == tenant_id`
abbrev pub tenant_matches : Option String → Option String → Bool
tenant_matches none t = true
tenant_matches (some rt) none = rt == ""
tenant_matches (some rt) (some t) = if rt == "" then true else rt == t

abbrev pub matches : BreakerEvent → Rule → Bool
matches e r =
    r.enabled
    && is_breaker r.rule_type
    && r.config.service_name == e.service_name
    && tenant_matches r.tenant_id e.tenant_id

abbrev pub no_context : Context
no_context = record { threshold = (0, 1); actual = (0, 1) }

-- The state is set whatever it was before.
abbrev pub react :
    BreakerState → BreakerState → Option Notifier → ℕ → Rule → List Entry → Rule × List Entry
react closed open_ notifier now r h = (
  record r { state = firing; last_evaluated_at = some now },
  emit notifier r fired no_context now h,
)
react open_ closed notifier now r h = (
  record r { state = resolved; last_evaluated_at = some now },
  emit notifier r recovered no_context now h,
)
react _ _ notifier now r h = (r, h)

unfoldable pub handle_breaker_rule :
    Option Notifier → BreakerEvent → ℕ → Rule → List Entry → Rule × List Entry
handle_breaker_rule notifier e now r h =
    if matches e r then react e.previous_state e.new_state notifier now r h else (r, h)

unfoldable pub handle_circuit_breaker_event :
    Option Notifier → BreakerEvent → ℕ → List Rule → List Entry → List Rule × List Entry
handle_circuit_breaker_event notifier e now [] h = ([], h)
handle_circuit_breaker_event notifier e now (r ∷ rs) h =
    let (r', h') = handle_breaker_rule notifier e now r h in
    let (rs', h'') = handle_circuit_breaker_event notifier e now rs h' in (r' ∷ rs', h'')
