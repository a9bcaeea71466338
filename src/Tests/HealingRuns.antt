-- ===== src/Tests/HealingRuns.antt =====
-- A document of which one field in three was extracted.
use smart_pdf_extractor.Prelude.{
  ◌≡◌, refl, String, true, false, Option, none, some, List, [], ◌∷◌, map, string_eq,
}
use smart_pdf_extractor.Dict.{Dict}
use smart_pdf_extractor.Runner.Merging.{scalar, accounts, Field}
use smart_pdf_extractor.Runner.Packaging.{Abstention}
use smart_pdf_extractor.Runner.Healing.{no_json, no_dict, should_retry, Retry, Healed, heal}

abbrev field_of : String → Field
field_of s = record {
  value = scalar s;
  original_string = s;
  confidence = 9000;
  vlm_used = false;
  redaction_applied = false;
  provenance = 1;
}

abbrev missing : String → Abstention
missing name = record { field = some name; table_id = none; reason = "ERR_EXTRACT_002" }

-- An account with a transaction.
abbrev with_accounts : Dict String Field
with_accounts =
    (
      "accounts",
      record (field_of "") {
        value =
            accounts (some (record { transactions = "a" ∷ []; tables = []; scalars = [] }) ∷ []);
      },
    )
    ∷ []

abbrev abstentions : List Abstention
abstentions = missing "isin" ∷ missing "currency" ∷ []

abbrev retry : Retry
retry = some (("institution", field_of "A Bank") ∷ ("currency", field_of "EUR") ∷ [], [])

abbrev names_after : Option Healed → List String
names_after none = []
names_after (some h) = map (λ f. f.0) h.fields

-- The retry has more fields, and none of the transactions.
accounts_replaced :
    names_after (heal true true no_json retry with_accounts abstentions)
    ≡ "institution" ∷ "currency" ∷ []
unfolding heal should_retry
accounts_replaced = refl

-- The model is asked although the tenant has it disabled.
asked_although_disabled :
    heal true false no_json retry with_accounts abstentions
    ≡ some (record {
      fields = with_accounts;
      abstentions = abstentions;
      diagnoses = 1;
      discoveries = 0;
    })
unfolding heal should_retry
asked_although_disabled = refl

list_raises : heal true true no_dict retry with_accounts abstentions ≡ none
unfolding heal should_retry
list_raises = refl
