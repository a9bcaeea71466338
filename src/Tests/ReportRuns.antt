-- ===== src/Tests/ReportRuns.antt =====
-- Whole documents before the validators.
use smart_pdf_extractor.Prelude.{
  ℕ, ◌≡◌, refl, ℤ, pos, nat_abs, ◌+ℤ◌, ◌-ℤ◌, String, true, false, Option, none, some, [], ◌∷◌, Text,
  codes, arith, upper, upper_char, strip, is_space,
}
use smart_pdf_extractor.Dict
use smart_pdf_extractor.Checksums.{validate_iban}
use smart_pdf_extractor.Validator.Amounts.{
  number, absent, Transaction, Account, to_float, amount, acct_id,
}
use smart_pdf_extractor.Validator.Balances.{
  differs, check_rows, validate_running_balance, total_debits, total_credits, reconcile,
  validate_account_balance_reconciliation, validate_transaction_completeness, crosscheck,
  validate_totals_crosscheck,
}
use smart_pdf_extractor.Validator.Fields.{
  FieldView, Moment, failure, looks_like_bic, is_valid_bic, validate_bic, validate_isin,
  validate_date_range, ten_years_before, validate_currency_codes, validate_provenance_integrity,
}
use smart_pdf_extractor.Validator.Columns.{
  validate_arithmetic_totals, column_failures, validate_column_type_consistency,
}
use smart_pdf_extractor.Validator.Report.{
  Output, ValidationReport, run_validators, lost_transaction_fails,
}

abbrev float : Text → Option ℤ
float t = none

abbrev no_date : Text → Option Moment
no_date t = none

abbrev moment : ℕ → ℕ → ℕ → Moment
moment y m d = record { year = y; month = m; day = d; second = 0 }

abbrev field_of : String → FieldView
field_of s = record {
  value = absent;
  text = codes s;
  provenance = record {
    page = pos 1;
    bbox = pos 0 ∷ pos 0 ∷ pos 9 ∷ pos 9 ∷ [];
    source = "native";
  };
}

-- An account number of eight digits is taken for a BIC, and reported.
digits_reported :
    validate_bic (("account_number", field_of "12345678") ∷ [])
    ≡ failure "validate_bic" "account_number" "ERR_VALID_004" ∷ []
unfolding validate_bic looks_like_bic upper strip is_space upper_char is_valid_bic
digits_reported = refl

abbrev paid : Transaction
paid = record {
  date = none;
  description = none;
  debit = absent;
  credit = number (pos 5000);
  balance = number (pos 15000);
}

abbrev rent : Transaction
rent = record {
  date = none;
  description = none;
  debit = number (pos 2000);
  credit = absent;
  balance = number (pos 13000);
}

abbrev acct : Account
acct = record {
  account_number = none;
  iban = none;
  opening_balance = number (pos 10000);
  closing_balance = number (pos 13000);
  total_debits = absent;
  total_credits = absent;
  transactions = some paid ∷ some rent ∷ [];
}

abbrev output : Account → Output
output a = record {
  schema_type = "bank_statement";
  fields = [];
  tables = [];
  accounts = some a ∷ [];
}

abbrev passes : ValidationReport
passes = record { passed = true; failures = [] }

both_pass : run_validators float 1 no_date (moment 2025 6 30) 3 (output acct) ≡ some passes
unfolding run_validators validate_date_range validate_arithmetic_totals Dict.lookup validate_iban
    validate_isin validate_bic validate_currency_codes validate_provenance_integrity
    validate_running_balance check_rows to_float amount differs nat_abs ◌-ℤ◌ ◌+ℤ◌
    validate_account_balance_reconciliation reconcile total_debits total_credits
    validate_column_type_consistency column_failures validate_transaction_completeness
    validate_totals_crosscheck crosscheck acct_id
both_pass = refl

-- On a leap day the validators raise.
leap_day_raises : run_validators float 1 no_date (moment 2028 2 29) 3 (output acct) ≡ none
unfolding run_validators validate_date_range ten_years_before
leap_day_raises = refl

lost_transaction_fails_example :
    (r' : ValidationReport) × (run_validators float 1 no_date
        (moment 2025 6 30)
        3
        (output (record acct { transactions = some paid ∷ [] }))
      ≡ some r')
    × (r'.passed ≡ false)
unfolding to_float amount nat_abs ◌-ℤ◌
lost_transaction_fails_example =
    lost_transaction_fails float 1 no_date (moment 2025 6 30) 3 (output acct)
      (output (record acct { transactions = some paid ∷ [] })) [] [] acct (some paid ∷ []) rent []
      (pos 10000) (pos 13000) passes refl refl refl refl (omega arith) (omega arith) both_pass refl
