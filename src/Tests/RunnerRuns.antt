-- ===== src/Tests/RunnerRuns.antt =====
-- Two sections with accounts of one number.
use smart_pdf_extractor.Prelude.{◌≡◌, refl, String, false, none, some, List, [], ◌∷◌, string_eq}
use smart_pdf_extractor.Dict
use smart_pdf_extractor.Dict.{Dict}
use smart_pdf_extractor.Runner.Merging.{
  text, nothing, Transaction, Account, FieldValue, null, scalar, accounts, Field, merge_field,
  merge_section, merge_sections,
}
use smart_pdf_extractor.Runner.Accounts.{
  key_of, fill_scalars, merge_accounts, deduplicate, deduplicate_accounts,
}
use smart_pdf_extractor.Runner.Packaging.{Abstention}
use smart_pdf_extractor.Runner.Healing.{null}
use smart_pdf_extractor.Runner.FirstValue.{found, first_value, merge_sections-first}

abbrev valued : FieldValue → Field
valued v = record {
  value = v;
  original_string = "";
  confidence = 9000;
  vlm_used = false;
  redaction_applied = false;
  provenance = 1;
}

abbrev acct : String → List Transaction → Account
acct number rows = record {
  transactions = rows;
  tables = [];
  scalars = ("account_number", text number) ∷ ("iban", nothing) ∷ [];
}

abbrev sections : List (Dict String Field)
sections =
    (("accounts", valued (accounts (some (acct "1" ("a" ∷ [])) ∷ [])))
      ∷ ("currency", valued null)
      ∷ [])
    ∷ ((
      "accounts",
      valued (accounts (some (acct "1" ("b" ∷ [])) ∷ some (acct "2" ("a" ∷ [])) ∷ [])),
    )
        ∷ ("currency", valued (scalar "EUR"))
        ∷ [])
    ∷ []

accounts_merged :
    Dict.lookup "accounts" (deduplicate_accounts (merge_sections sections []))
    ≡ some (valued (accounts (some (acct "1" ("a" ∷ "b" ∷ [])) ∷ some (acct "2" ("a" ∷ [])) ∷ [])))
unfolding deduplicate_accounts deduplicate merge_accounts key_of fill_scalars merge_sections
    merge_section merge_field Dict.lookup Dict.put
accounts_merged = refl

merge_sections-first_example :
    Dict.lookup "currency" (merge_sections sections []) ≡ first_value (found "currency" sections)
merge_sections-first_example = merge_sections-first "currency" sections refl

abbrev abstentions : List Abstention
abstentions = record { field = some "currency"; table_id = none; reason = "ERR_EXTRACT_002" } ∷ []
