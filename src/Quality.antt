-- ===== src/Quality.antt =====
-- pdf_ingestion/pipeline/quality_scorer.py: five checks of the tables that the text parser found.
-- The metrics are left out of the results; they are compared exactly.
use smart_pdf_extractor.Prelude.{
  ℕ, ◌+◌, ◌*◌, String, string_eq, nat_eq, list_eq, ◌==◌, Bool, true, false, not, ◌&&◌, Option, none,
  some, List, [], ◌∷◌, ◌++◌, Text, codes, strip, upper, is_space, any, select, map, count_if,
  length, leb, ltb, if◌then◌else◌,
}
use smart_pdf_extractor.Dict
use smart_pdf_extractor.Dict.{Dict}
use smart_pdf_extractor.Verifier.{is_infix}
pub mod Blind

-- A row of the text parser is a dict; a TableRow of the response has a list of cells, and neither
-- `values` nor `get`.
pub data Row : Type 0 where
  dict_row : Dict Text (Option Text) → Row
  table_row : List (Option Text) → Row

pub record Table : Type 0 where
  pub headers : List Text
  pub rows : List Row

pub record CheckResult : Type 0 where
  pub name : String
  pub passed : Bool

pub record QualityResult : Type 0 where
  pub verdict : String
  pub failed_checks : List String
  pub checks : List CheckResult

abbrev pub financial_keywords : List Text
financial_keywords = map codes (
    "SETTL" ∷ "TRADE" ∷ "DESC" ∷ "ISIN" ∷ "CUSIP" ∷ "AMOUNT" ∷ "DEBIT" ∷ "CREDIT" ∷ "BALANCE"
    ∷ "QTY" ∷ "PRICE" ∷ "DATE" ∷ "BUY" ∷ "SELL" ∷ "NET" ∷ [])

abbrev pub date_column_triggers : List Text
date_column_triggers = map codes ("DATE" ∷ "SETTL" ∷ "TRADE" ∷ [])

abbrev pub numeric_column_triggers : List Text
numeric_column_triggers = map codes ("BUY" ∷ "SELL" ∷ "QTY" ∷ "AMOUNT" ∷ "NET" ∷ [])

-- `none` is an exception.
abbrev pub append_found {ℓ} : {A : Type ℓ} → Option (List A) → Option (List A) → Option (List A)
append_found none ys = none
append_found (some xs) none = none
append_found (some xs) (some ys) = some (xs ++ ys)

abbrev pub collect {ℓ} : {A : Type ℓ} → List (Option (List A)) → Option (List A)
collect [] = some []
collect (o ∷ os) = append_found o (collect os)

abbrev pub one_text : Option Text → List Text
one_text none = []
one_text (some t) = t ∷ []

abbrev pub texts : List (Option Text) → List Text
texts [] = []
texts (o ∷ os) = one_text o ++ texts os

abbrev pub is_blank : Text → Bool
is_blank t = not (ltb 0 (length (strip t)))

-- The values of `row.values()` that are not None.
abbrev pub values : Row → Option (List Text)
values (dict_row d) = some (texts (map (λ e. e.1) d))
values (table_row cells) = none

abbrev pub filled : Option (Option Text) → List Text
filled none = []
filled (some o) = select (λ t. not (is_blank t)) (one_text o)

-- `row.get(header)`, if it is neither None nor blank.
abbrev pub value_at : Text → Row → Option (List Text)
value_at header (dict_row d) = some (filled (Dict.lookup header d))
value_at header (table_row cells) = none

-- An exception lets a check pass.
abbrev pub passed_or : (List Text → Bool) → Option (List Text) → Bool
passed_or test none = true
passed_or test (some found) = test found

abbrev pub all_values : List Table → Option (List Text)
all_values tables = collect (map (λ t. collect (map values t.rows)) tables)

unfoldable pub check_cell_fragmentation : List Table → CheckResult
check_cell_fragmentation tables = record {
  name = "cell_fragmentation";
  passed =
      passed_or (λ vs. leb (100 * count_if (λ v. leb (length (strip v)) 3) vs) (40 * length vs))
        (all_values tables);
}

-- `header.upper().split()`, with the token that is being read.
abbrev pub end_token : Text → List Text → List Text
end_token [] tokens = tokens
end_token (c ∷ token) tokens = (c ∷ token) ∷ tokens

abbrev pub split_from : Text → Text → List Text
split_from token [] = end_token token []
split_from token (c ∷ s) =
    let gap = split_from [] s in
    let word = split_from (token ++ c ∷ []) s in if is_space c then end_token token gap else word

-- A token that is a part of a keyword, but not all of it.
unfoldable pub is_fragment : Text → Bool
is_fragment token = any (λ k. not (token == k) && is_infix token k) financial_keywords

abbrev pub is_fragmented : List Table → Bool
is_fragmented tables =
    any (λ t. any (λ h. any is_fragment (split_from [] (upper h))) t.headers) tables

unfoldable pub check_header_fragmentation : List Table → CheckResult
unfolding is_fragment
check_header_fragmentation tables = record {
  name = "header_fragmentation";
  passed = not (is_fragmented tables);
}

abbrev pub has_trigger : List Text → Text → Bool
has_trigger triggers header = any (λ trigger. is_infix trigger (upper header)) triggers

-- The values of the columns whose headers have a trigger.
abbrev pub column_values : List Text → List Table → Option (List Text)
column_values triggers tables = collect (
    map
      (λ t.
        collect
          (map (λ h. collect (map (value_at h) t.rows)) (select (has_trigger triggers) t.headers)))
      tables)

-- How many values of each row are not blank.
abbrev pub row_counts_of : List Row → Option (List ℕ)
row_counts_of [] = some []
row_counts_of (dict_row d ∷ rows) =
    append_found (some (length (select (λ t. not (is_blank t)) (texts (map (λ e. e.1) d))) ∷ []))
      (row_counts_of rows)
row_counts_of (table_row cells ∷ rows) = none

abbrev pub row_counts : List Table → Option (List ℕ)
row_counts tables = collect (map (λ t. row_counts_of t.rows) tables)

abbrev pub sum : List ℕ → ℕ
sum [] = 0
sum (n ∷ ns) = n + sum ns

-- The standard deviation is at most 2: the variance is at most 4.
abbrev pub is_uniform : Option (List ℕ) → Bool
is_uniform none = true
is_uniform (some counts) =
    let n = length counts in
    if ltb n 2
    then true
    else leb (n * sum (map (λ x. x * x) counts)) (sum counts * sum counts + 4 * (n * n))

unfoldable pub check_row_uniformity : List Table → CheckResult
check_row_uniformity tables = record {
  name = "row_uniformity";
  passed = is_uniform (row_counts tables);
}

-- The parsers of dates and numbers are parameters.
module _ (is_valid_date is_valid_number : Text → Bool) where
  unfoldable pub check_date_column_incoherence : List Table → CheckResult
  check_date_column_incoherence tables = record {
    name = "date_column_incoherence";
    passed =
        passed_or (λ vs. leb (2 * count_if (λ v. not (is_valid_date v)) vs) (length vs))
          (column_values date_column_triggers tables);
  }

  unfoldable pub check_numeric_column_incoherence : List Table → CheckResult
  check_numeric_column_incoherence tables = record {
    name = "numeric_column_incoherence";
    passed =
        passed_or (λ vs. leb (10 * count_if (λ v. not (is_valid_number v)) vs) (3 * length vs))
          (column_values numeric_column_triggers tables);
  }

  abbrev pub failed_of : List CheckResult → List String
  failed_of checks = map (λ c. c.name) (select (λ c. not c.passed) checks)

  abbrev pub result_of : List CheckResult → QualityResult
  result_of checks = record {
    verdict = if ltb 0 (length (failed_of checks)) then "fail" else "pass";
    failed_checks = failed_of checks;
    checks = checks;
  }

  abbrev pub all_passed : List CheckResult
  all_passed =
      map (λ n. record { name = n; passed = true })
        ("cell_fragmentation" ∷ "header_fragmentation" ∷ "date_column_incoherence"
          ∷ "row_uniformity" ∷ "numeric_column_incoherence" ∷ [])

  -- Without a row nothing is scored.
  unfoldable pub score_tables : List Table → QualityResult
  score_tables tables =
      if any (λ t. ltb 0 (length t.rows)) tables
      then result_of (
          check_cell_fragmentation tables
          ∷ check_header_fragmentation tables
          ∷ check_date_column_incoherence tables
          ∷ check_row_uniformity tables
          ∷ check_numeric_column_incoherence tables
          ∷ [])
      else result_of all_passed
