-- ===== src/Tests/QualityRuns.antt =====
-- A table of fragments, with the rows of the text parser and with those of the runner.
use smart_pdf_extractor.Prelude.{
  ◌≡◌, refl, String, Bool, false, ◌&&◌, some, [], ◌∷◌, Text, codes, upper, upper_char, strip,
  is_space, any, length, ltb, if◌then◌else◌,
}
use smart_pdf_extractor.Dict
use smart_pdf_extractor.Verifier.{is_infix}
use smart_pdf_extractor.Quality.{
  Row, dict_row, table_row, Table, is_fragment, is_fragmented, check_cell_fragmentation,
  check_header_fragmentation, check_row_uniformity, check_date_column_incoherence,
  check_numeric_column_incoherence, score_tables,
}
use smart_pdf_extractor.Quality.Blind.{score_tables_blind}

abbrev never : Text → Bool
never t = false

abbrev table_of : String → Row → Table
table_of header row = record { headers = codes header ∷ []; rows = row ∷ [] }

abbrev parsed : Row
parsed = dict_row ((codes "Date", some (codes "x")) ∷ [])

-- The text parser's row fails two checks, and the same cells in a TableRow fail none.
fragments_seen :
    (score_tables never never (table_of "Date" parsed ∷ [])).failed_checks
    ≡ "cell_fragmentation" ∷ "date_column_incoherence" ∷ []
unfolding score_tables check_cell_fragmentation check_header_fragmentation check_row_uniformity
    check_date_column_incoherence check_numeric_column_incoherence is_fragment is_infix upper
    upper_char strip is_space Dict.lookup
fragments_seen = refl

-- The header of a column of payments that came in.
paid_in_fails :
    (score_tables never never
      (table_of "Paid In" (table_row (some (codes "10.00") ∷ [])) ∷ [])).failed_checks
    ≡ "header_fragmentation" ∷ []
unfolding score_tables check_cell_fragmentation check_header_fragmentation check_row_uniformity
    check_date_column_incoherence check_numeric_column_incoherence is_fragment is_infix upper
    upper_char strip is_space Dict.lookup
paid_in_fails = refl

score_tables_blind_example :
    let tables = table_of "Date" (table_row (some (codes "x") ∷ [])) ∷ [] in
    (score_tables never never tables).failed_checks ≡ (
      if any (λ t. ltb 0 (length t.rows)) tables && is_fragmented tables
      then "header_fragmentation" ∷ []
      else [])
score_tables_blind_example =
    score_tables_blind never never (table_of "Date" (table_row (some (codes "x") ∷ [])) ∷ [])
      ((tt, tt), tt)
