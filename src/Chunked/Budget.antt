-- ===== src/Chunked/Budget.antt =====
-- TokenBudget of pdf_ingestion/pipeline/vlm/token_budget.py.
use smart_pdf_extractor.Prelude.{
  ℕ, ◌+◌, ◌-◌, String, ◌==◌, string_eq, Bool, true, not, max, ltb, if◌then◌else◌,
}

pub record TokenBudget : Type 0 where
  pub max_tokens : ℕ
  pub budget_exceeded_action : String
  pub consumed_input_tokens : ℕ
  pub consumed_output_tokens : ℕ
  pub windows_processed : ℕ

abbrev pub total_consumed : TokenBudget → ℕ
total_consumed b = b.consumed_input_tokens + b.consumed_output_tokens

unfoldable pub remaining : TokenBudget → ℕ
remaining b = max 0 (b.max_tokens - total_consumed b)

unfoldable pub is_exceeded : TokenBudget → Bool
is_exceeded b = ltb b.max_tokens (total_consumed b)

unfoldable pub record_usage : ℕ → ℕ → TokenBudget → TokenBudget
record_usage input output b = record b {
  consumed_input_tokens = b.consumed_input_tokens + input;
  consumed_output_tokens = b.consumed_output_tokens + output;
  windows_processed = b.windows_processed + 1;
}

unfoldable pub can_proceed : TokenBudget → Bool
can_proceed b =
    if b.budget_exceeded_action == "proceed"
    then true
    else if b.budget_exceeded_action == "flag"
    then true
    else not (is_exceeded b)
