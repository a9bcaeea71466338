-- ===== src/Validator/Columns.antt =====
-- The checks by column (validate_arithmetic_totals and validate_column_type_consistency of
-- pdf_ingestion/pipeline/validator.py).
use smart_pdf_extractor.Prelude.{
  ℕ, ◌+◌, ◌*◌, ℤ, pos, ◌+ℤ◌, ◌-ℤ◌, String, string_eq, nat_eq, list_eq, ◌==◌, Bool, false, not, ◌&&◌,
  ◌||◌, Option, none, some, List, [], ◌∷◌, ◌++◌, Text, codes, strip, lower, map, max, ltb, nat_beq,
  any, select, count_if, get_elem?, length, if◌then◌else◌, is_some,
}
use smart_pdf_extractor.Dict
use smart_pdf_extractor.Dict.{Dict}
use smart_pdf_extractor.Checksums.{is_digit}
use smart_pdf_extractor.Segmenter.{is_prefix}
use smart_pdf_extractor.Validator.Amounts.{
  Value, Transaction, Account, acct_id, ValidationFailure, to_float, or_zero, field, account_part,
}
use smart_pdf_extractor.Validator.Balances.{differs, each_account, flag}
use smart_pdf_extractor.Validator.Fields.{FieldView, Moment}

pub record Table : Type 0 where
  pub type : String
  pub headers : List Text
  pub rows : List (List Value)

-- One pass of _find_header_index, with the index of the first header.
abbrev pub index_of : (Text → Bool) → ℕ → List Text → Option ℕ
index_of test i [] = none
index_of test i (h ∷ headers) =
    let rest = index_of test (i + 1) headers in if test h then some i else rest

abbrev pub or_second : Option ℕ → Option ℕ → Option ℕ
or_second (some i) later = some i
or_second none later = later

unfoldable pub find_header_index : List Text → List Text → Option ℕ
find_header_index headers candidates =
    or_second (index_of (λ h. any (λ c. h == c) candidates) 0 headers)
      (index_of (λ h. any (λ c. is_prefix c h || is_prefix h c) candidates) 0 headers)

module _ (float : Text → Option ℤ) (cent : ℕ) where
  abbrev pub cell : ℕ → List Value → ℤ
  cell i cells = elim (get_elem? cells i) [
    | none ↦ pos 0
    | some v ↦ or_zero float (to_float float v)
  ]

  -- The sum of a column over the rows that have both.
  abbrev pub column_sum : ℕ → ℕ → ℕ → List (List Value) → ℤ
  column_sum i debit_idx credit_idx [] = pos 0
  column_sum i debit_idx credit_idx (cells ∷ rows) =
      let rest = column_sum i debit_idx credit_idx rows in
      if ltb (max debit_idx credit_idx) (length cells) then cell i cells +ℤ rest else rest

  -- Credits less debits of a table whose headers have both.
  abbrev pub net_of_columns : Option ℕ → Option ℕ → List (List Value) → ℤ
  net_of_columns none credit_idx rows = pos 0
  net_of_columns (some d) none rows = pos 0
  net_of_columns (some d) (some c) rows = column_sum c d c rows -ℤ column_sum d d c rows

  unfoldable pub table_net : Table → ℤ
  table_net t =
      let headers_lower = map lower t.headers in
      net_of_columns
        (find_header_index headers_lower (codes "debit" ∷ codes "debits" ∷ codes "dr" ∷ []))
        (find_header_index headers_lower (codes "credit" ∷ codes "credits" ∷ codes "cr" ∷ []))
        t.rows

  abbrev pub tables_net : List Table → ℤ
  tables_net [] = pos 0
  tables_net (t ∷ tables) =
      let rest = tables_net tables in if t.type == "transactions" then table_net t +ℤ rest else rest

  abbrev pub number_of : Option FieldView → Option ℤ
  number_of none = none
  number_of (some f) = to_float float f.value

  abbrev pub totals_failures : Option ℤ → Option ℤ → List Table → List ValidationFailure
  totals_failures none closing tables = []
  totals_failures (some opening) none tables = []
  totals_failures (some opening) (some closing) tables =
      flag float cent (differs float cent closing (opening +ℤ tables_net tables))
        "validate_arithmetic_totals" (field "closing_balance") "ERR_VALID_001"

  unfoldable pub validate_arithmetic_totals :
      String → Dict String FieldView → List Table → List ValidationFailure
  unfolding table_net
  validate_arithmetic_totals schema_type fields tables =
      if schema_type == "bank_statement"
      then totals_failures (number_of (Dict.lookup "opening_balance" fields))
          (number_of (Dict.lookup "closing_balance" fields)) tables
      else []

  module _ (try_parse_date : Text → Option Moment) where
    -- A date that is none but reads as a number.
    abbrev pub is_number_for_date : Option Text → Bool
    is_number_for_date none = false
    is_number_for_date (some d) =
        ltb 0 (length (strip d))
        && not (is_some (try_parse_date d))
        && is_some (float (select (λ c. not (nat_beq c b',')) d))

    -- A description of more than three characters that are all digits, but for commas and points.
    abbrev pub is_number_for_description : Option Text → Bool
    is_number_for_description none = false
    is_number_for_description (some d) =
        let cleaned = select (λ c. not (nat_beq c b',' || nat_beq c b'.')) (strip d) in
        not (any (λ c. not (is_digit c)) cleaned) && ltb 3 (length cleaned)

    abbrev pub of_row : (Transaction → Bool) → Option Transaction → Bool
    of_row test none = false
    of_row test (some t) = test t

    -- More than a fifth of the entries.
    abbrev pub too_many : ℕ → List (Option Transaction) → Bool
    too_many n transactions = ltb (length transactions) (5 * n)

    unfoldable pub column_failures : ℕ → Account → List ValidationFailure
    column_failures i a =
        let dates = count_if (of_row (λ t. is_number_for_date t.date)) a.transactions in
        let descriptions =
          count_if (of_row (λ t. is_number_for_description t.description)) a.transactions in
        flag float cent (too_many dates a.transactions) "validate_column_type_consistency"
          (account_part (acct_id i a) "date") "ERR_VAL_COLUMN_TYPE"
        ++ flag float cent (too_many descriptions a.transactions) "validate_column_type_consistency"
            (account_part (acct_id i a) "description") "ERR_VAL_COLUMN_TYPE"

    unfoldable pub validate_column_type_consistency : List (Option Account) → List ValidationFailure
    validate_column_type_consistency = each_account float cent column_failures 0
