-- ===== src/Validator/Report.antt =====
-- run_validators of pdf_ingestion/pipeline/validator.py.
use smart_pdf_extractor.Prelude.{
  ℕ, suc, ◌+◌, ◌*◌, ◌<◌, ◌≡◌, refl, ap, sym, ◌∙◌, ℤ, String, Bool, true, false, ◌&&◌, Option-cases,
  inl, inr, Option, none, some, List, [], ◌∷◌, ◌++◌, Text, nat_abs, length, arith,
}
use mathlib.Core.Option.{some-injective}
use smart_pdf_extractor.Dict.{Dict}
use smart_pdf_extractor.Checksums.{validate_iban}
use smart_pdf_extractor.Validator.Amounts.{Transaction, Account, ValidationFailure, to_float}
use smart_pdf_extractor.Validator.Balances.{
  each_account, reconcile, validate_running_balance, validate_account_balance_reconciliation,
  validate_transaction_completeness, validate_totals_crosscheck,
}
use smart_pdf_extractor.Validator.Fields.{
  FieldView, Moment, validate_isin, validate_bic, validate_date_range, validate_currency_codes,
  validate_provenance_integrity, texts_of, iban_failures, ten_years_before,
}
use smart_pdf_extractor.Validator.Columns.{
  Table, validate_arithmetic_totals, validate_column_type_consistency,
}
use smart_pdf_extractor.Validator.Chains.{net, lost_transaction_found}

-- What the validators read of a FinalOutput. `accounts` is the list in the field of that name, and
-- empty where there is none.
pub record Output : Type 0 where
  pub schema_type : String
  pub fields : Dict String FieldView
  pub tables : List Table
  pub accounts : List (Option Account)

pub record ValidationReport : Type 0 where
  pub passed : Bool
  pub failures : List ValidationFailure

abbrev pub is_clean : List ValidationFailure → Bool
is_clean [] = true
is_clean (f ∷ failures) = false

module _ (float : Text → Option ℤ) (cent : ℕ) (try_parse_date : Text → Option Moment) where
  -- The checks before that of the dates, and those after it.
  abbrev pub failures_before : Output → List ValidationFailure
  failures_before o =
      validate_arithmetic_totals float cent o.schema_type o.fields o.tables
      ++ iban_failures (validate_iban (texts_of o.fields))
      ++ validate_isin o.fields
      ++ validate_bic o.fields

  abbrev pub failures_behind : ℕ → Output → List ValidationFailure
  failures_behind total_pages o =
      validate_currency_codes o.fields
      ++ validate_provenance_integrity total_pages o.fields
      ++ validate_running_balance float cent o.accounts
      ++ validate_account_balance_reconciliation float cent o.accounts
      ++ validate_column_type_consistency float cent try_parse_date o.accounts
      ++ validate_transaction_completeness float cent o.accounts
      ++ validate_totals_crosscheck float cent o.accounts

  abbrev pub report_of : ℕ → Output → Option (List ValidationFailure) → Option ValidationReport
  report_of total_pages o none = none
  report_of total_pages o (some dates) =
      let all_failures = failures_before o ++ dates ++ failures_behind total_pages o in
      some (record { passed = is_clean all_failures; failures = all_failures })

  -- `none` if a validator raises.
  unfoldable pub run_validators : Moment → ℕ → Output → Option ValidationReport
  run_validators now total_pages o =
      report_of total_pages o (validate_date_range try_parse_date now o.fields)

  is_clean-append :
      (xs ys : List ValidationFailure) → is_clean (xs ++ ys) ≡ (is_clean xs && is_clean ys)
  is_clean-append [] ys = refl
  is_clean-append (x ∷ xs) ys = refl

  is_clean-empty : (xs : List ValidationFailure) → is_clean xs ≡ true → xs ≡ []
  is_clean-empty [] h = refl
  is_clean-empty (x ∷ xs) h = cc

  middle_clean :
      (p dates a b c r d e f : List ValidationFailure)
      → is_clean (p ++ dates ++ (a ++ b ++ c ++ r ++ d ++ e ++ f)) ≡ (
          (is_clean p
            && is_clean dates
            && is_clean (a ++ b ++ c)
            && is_clean d
            && is_clean e
            && is_clean f)
          && is_clean r)
  middle_clean p dates a b c r d e f = ground (
    arith,
    is_clean-append (p ++ dates) (a ++ b ++ c ++ r ++ d ++ e ++ f),
    is_clean-append p dates,
    is_clean-append (a ++ b ++ c ++ r ++ d ++ e) f,
    is_clean-append (a ++ b ++ c ++ r ++ d) e,
    is_clean-append (a ++ b ++ c ++ r) d,
    is_clean-append (a ++ b ++ c) r,
  )

  -- What is clean as a whole, but for the reconciliation of the accounts.
  clean_parts :
      (total_pages : ℕ) (o : Output) (dates : List ValidationFailure)
      → (others : Bool) × (is_clean (failures_before o ++ dates ++ failures_behind total_pages o)
          ≡ (others && is_clean (validate_account_balance_reconciliation float cent o.accounts)))
  clean_parts total_pages o dates = (
    _,
    middle_clean (failures_before o) dates (validate_currency_codes o.fields)
        (validate_provenance_integrity total_pages o.fields)
        (validate_running_balance float cent o.accounts)
        (validate_account_balance_reconciliation float cent o.accounts)
        (validate_column_type_consistency float cent try_parse_date o.accounts)
        (validate_transaction_completeness float cent o.accounts)
        (validate_totals_crosscheck float cent o.accounts),
  )

  shifted :
      (i : ℕ) (before : List (Option Account)) → i + 1 + length before ≡ i + suc (length before)
  shifted i before = omega arith

  -- The reconciliation of the account behind `before`, among all.
  reconcile_at :
      (i : ℕ) (before : List (Option Account)) (a : Account) (behind : List (Option Account))
      → (others : Bool) × (is_clean
            (each_account float cent (reconcile float cent) i (before ++ some a ∷ behind))
          ≡ (others && is_clean (reconcile float cent (i + length before) a)))
  reconcile_at i [] a behind =
      let later = each_account float cent (reconcile float cent) (i + 1) behind in
      (is_clean later, ground (arith, is_clean-append (reconcile float cent i a) later))
  reconcile_at i (none ∷ before) a behind =
      let (others, same) = reconcile_at (i + 1) before a behind in
      (others, rw (shifted i before) at same)
  reconcile_at i (some x ∷ before) a behind =
      let (others, same) = reconcile_at (i + 1) before a behind in
      (
        is_clean (reconcile float cent i x) && others,
        ground (
          arith,
          is_clean-append (reconcile float cent i x)
              (each_account float cent (reconcile float cent) (i + 1) (before ++ some a ∷ behind)),
          rw (shifted i before) at same,
        ),
      )

  report_of-passed :
      (total_pages : ℕ) (o : Output) (dates : Option (List ValidationFailure))
      (r : ValidationReport)
      → report_of total_pages o dates ≡ some r
      → r.passed ≡ true
      → is_clean (validate_account_balance_reconciliation float cent o.accounts) ≡ true
  report_of-passed total_pages o none r h k = cc
  report_of-passed total_pages o (some dates) r h k =
      let (others, same) = clean_parts total_pages o dates in
      let passed : r.passed
          ≡ (others && is_clean (validate_account_balance_reconciliation float cent o.accounts)) =
        sym (ap ValidationReport.passed (some-injective _ _ h)) ∙ same in
      ground (arith, passed, k)

  report_of-failed :
      (total_pages : ℕ) (o : Output) (dates : List ValidationFailure)
      → is_clean (validate_account_balance_reconciliation float cent o.accounts) ≡ false
      → (r : ValidationReport) × (report_of total_pages o (some dates) ≡ some r)
        × (r.passed ≡ false)
  report_of-failed total_pages o dates h =
      let (others, same) = clean_parts total_pages o dates in (_, refl, same ∙ ground (arith, h))

  run-moment :
      (now : Moment) (total_pages : ℕ) (o : Output) (r : ValidationReport)
      → run_validators now total_pages o ≡ some r
      → (m : Moment) × (ten_years_before now ≡ some m)
  unfolding run_validators validate_date_range
  run-moment now total_pages o r h = elim (Option-cases (ten_years_before now)) [
    | inl e ↦ cc
    | inr found ↦ found
  ]

  -- Where the validators pass a document, and an account of it with an opening and a closing
  -- balance has a transaction that adds or takes more than four cents, they fail any document that
  -- has the same accounts but for that transaction, provided that the account has another entry.
  pub lost_transaction_fails :
      (now : Moment) (total_pages : ℕ) (o o' : Output)
      (accounts_before accounts_behind : List (Option Account)) (a : Account)
      (before : List (Option Transaction)) (t : Transaction) (behind : List (Option Transaction))
      (opening closing : ℤ) (r : ValidationReport)
      → o.accounts
        ≡ accounts_before
          ++ some (record a { transactions = before ++ some t ∷ behind }) ∷ accounts_behind
      → o'.accounts
        ≡ accounts_before ++ some (record a { transactions = before ++ behind }) ∷ accounts_behind
      → to_float float a.opening_balance ≡ some opening
      → to_float float a.closing_balance ≡ some closing
      → 0 < length (before ++ behind)
      → 4 * cent < nat_abs (net float cent t)
      → run_validators now total_pages o ≡ some r
      → r.passed ≡ true
      → (r' : ValidationReport) × (run_validators now total_pages o' ≡ some r')
        × (r'.passed ≡ false)
  unfolding run_validators validate_date_range validate_account_balance_reconciliation
  lost_transaction_fails now total_pages o o' xs ys a before t behind opening closing r whole fewer
        opens closes left big run passed =
      let (m, moment) = run-moment now total_pages o r run in
      let (others, same) =
        reconcile_at 0 xs (record a { transactions = before ++ some t ∷ behind }) ys in
      let (others', same') = reconcile_at 0 xs (record a { transactions = before ++ behind }) ys in
      let clean : is_clean (each_account float cent (reconcile float cent) 0 o.accounts) ≡ true =
        report_of-passed total_pages o _ r run passed in
      let reconciled =
        is_clean-empty
          (reconcile float cent (0 + length xs)
            (record a { transactions = before ++ some t ∷ behind }))
          (ground (arith, rw whole at clean, same)) in
      let reported =
        lost_transaction_found float cent (0 + length xs) a before t behind opening closing opens
          closes left big reconciled in
      let unclean : is_clean (each_account float cent (reconcile float cent) 0 o'.accounts)
          ≡ false =
        rw fewer (same' ∙ rw reported (ground arith)) in
      rw moment (report_of-failed total_pages o' _ unclean)
