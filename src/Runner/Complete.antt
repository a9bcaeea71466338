-- ===== src/Runner/Complete.antt =====
-- When a result is complete, and what it abstains from (pdf_ingestion/pipeline/runner.py and
-- pdf_ingestion/pipeline/packager.py).
use smart_pdf_extractor.Prelude.{
  ◌≡◌, String, Bool, true, not, List, [], string_eq, count_if, is_some, All,
}
use smart_pdf_extractor.Dict
use smart_pdf_extractor.Dict.{Dict}
use smart_pdf_extractor.Runner.Merging.{Transaction, Field, merge_sections}
use smart_pdf_extractor.Runner.Accounts.{deduplicate_accounts}
use smart_pdf_extractor.Runner.NothingLost.{of_fields, of_sections}
use smart_pdf_extractor.Runner.Packaging.{Abstention, is_about_field, FinalOutput}

-- The abstention is not about a field that was extracted.
abbrev pub IsOpen : Dict String Field → Abstention → Type 0
IsOpen fields a = not (is_about_field (λ name. is_some (Dict.lookup name fields)) a.field) ≡ true

-- The output is complete, it has each transaction as often as the sections have it, and no
-- abstention is about a field of it.
abbrev pub IsWhole : List (Dict String Field) → FinalOutput → Type 0
IsWhole sections output =
    (output.status ≡ "complete")
    × ((p : Transaction → Bool)
        → count_if p (of_fields output.fields) ≡ count_if p (of_sections sections))
    × All (IsOpen output.fields) output.abstentions

abbrev pub fields_of : List (Dict String Field) → Dict String Field
fields_of sections = deduplicate_accounts (merge_sections sections [])
