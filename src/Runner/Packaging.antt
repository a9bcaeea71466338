-- ===== src/Runner/Packaging.antt =====
-- The abstentions that are left and the status of a result (process_document of
-- pdf_ingestion/pipeline/runner.py after the merge of the sections, and
-- pdf_ingestion/pipeline/packager.py).
use smart_pdf_extractor.Prelude.{
  ℕ, ◌+◌, String, Bool, false, not, ◌&&◌, ◌||◌, Option, none, some, List, [], ◌∷◌, ltb, leb, min,
  ◌==◌, string_eq, if◌then◌else◌, length, any, count_if, select, is_some, Text,
}
use smart_pdf_extractor.Dict
use smart_pdf_extractor.Dict.{Dict}
use smart_pdf_extractor.Verifier.{is_infix}
use smart_pdf_extractor.Runner.Merging.{Account, FieldValue, accounts, Field, is_truthy}
use smart_pdf_extractor.Runner.Accounts.{is_empty}

pub record Abstention : Type 0 where
  pub field : Option String
  pub table_id : Option Text
  pub reason : String

-- An account with transactions or tables.
abbrev pub has_rows : Option Account → Bool
has_rows none = false
has_rows (some a) = not (is_empty a.transactions) || not (is_empty a.tables)

abbrev pub account_data : FieldValue → Bool
account_data (accounts accts) = any has_rows accts
account_data v = false

abbrev pub has_data : Option Field → Bool
has_data none = false
has_data (some f) = is_truthy f.value && account_data f.value

abbrev pub transactions_text : Text
transactions_text =
    b't' ∷ b'r' ∷ b'a' ∷ b'n' ∷ b's' ∷ b'a' ∷ b'c' ∷ b't' ∷ b'i' ∷ b'o' ∷ b'n' ∷ b's' ∷ []

abbrev pub positions_text : Text
positions_text = b'p' ∷ b'o' ∷ b's' ∷ b'i' ∷ b't' ∷ b'i' ∷ b'o' ∷ b'n' ∷ b's' ∷ []

abbrev pub about : Text → Option Text → Bool
about part none = false
about part (some id) = not (is_empty id) && is_infix part id

-- `a.table_id and part in str(a.table_id)`
abbrev pub is_about_table : Text → Abstention → Bool
is_about_table part a = about part a.table_id

abbrev pub custody_fields : List String
custody_fields =
    "portfolio_id" ∷ "valuation_date" ∷ "total_value" ∷ "trade_date" ∷ "settlement_date" ∷ "isin"
    ∷ "quantity" ∷ "price" ∷ "counterparty_bic" ∷ "opening_balance" ∷ []

abbrev pub is_about_field : (String → Bool) → Option String → Bool
is_about_field test none = false
is_about_field test (some name) = test name

-- Where the accounts have data, abstentions about their tables and custody fields are dropped.
abbrev pub is_settled : Abstention → Bool
is_settled a =
    is_about_table transactions_text a
    || is_about_table positions_text a
    || is_about_field (λ name. any (λ f. f == name) custody_fields) a.field

abbrev pub drop_settled : Bool → List Abstention → List Abstention
drop_settled data_found abstentions =
    if data_found then select (λ a. not (is_settled a)) abstentions else abstentions

-- Abstentions about fields that were extracted are dropped.
unfoldable pub open_abstentions : Dict String Field → List Abstention → List Abstention
open_abstentions fields abstentions =
    select (λ a. not (is_about_field (λ name. is_some (Dict.lookup name fields)) a.field))
      (drop_settled (has_data (Dict.lookup "accounts" fields)) abstentions)

abbrev pub field_abstentions : List Abstention → ℕ
field_abstentions abstentions = count_if (λ a. is_some a.field) abstentions

unfoldable pub determine_status : Dict String Field → List Abstention → String
determine_status fields abstentions =
    if is_empty fields
    then "failed"
    else if has_data (Dict.lookup "accounts" fields)
    then "complete"
    else if leb 3 (length fields) && leb (field_abstentions abstentions) 2
    then "complete"
    else if ltb 0 (field_abstentions abstentions)
    then "partial"
    else "complete"

-- The mean is kept as a sum and a count.
pub record ConfidenceSummary : Type 0 where
  pub confidence_sum : ℕ
  pub min_confidence : ℕ
  pub fields_extracted : ℕ
  pub fields_abstained : ℕ
  pub vlm_used_count : ℕ

abbrev pub sum_confidence : Dict String Field → ℕ
sum_confidence [] = 0
sum_confidence ((name, f) ∷ fields) = f.confidence + sum_confidence fields

abbrev pub min_confidence : Dict String Field → ℕ
min_confidence [] = 0
min_confidence ((name, f) ∷ []) = f.confidence
min_confidence ((name, f) ∷ g ∷ fields) = min f.confidence (min_confidence (g ∷ fields))

unfoldable pub compute_confidence_summary : Dict String Field → List Abstention → ConfidenceSummary
compute_confidence_summary fields abstentions = record {
  confidence_sum = sum_confidence fields;
  min_confidence = min_confidence fields;
  fields_extracted = length fields;
  fields_abstained = field_abstentions abstentions;
  vlm_used_count = count_if (λ f. f.1.vlm_used) fields;
}

-- The parts of a FinalOutput that the runner decides on.
pub record FinalOutput : Type 0 where
  pub status : String
  pub fields : Dict String Field
  pub abstentions : List Abstention
  pub confidence_summary : ConfidenceSummary

unfoldable pub package_result : Dict String Field → List Abstention → FinalOutput
package_result fields abstentions = record {
  status = determine_status fields abstentions;
  fields = fields;
  abstentions = abstentions;
  confidence_summary = compute_confidence_summary fields abstentions;
}
