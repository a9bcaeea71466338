-- ===== src/Runner/Merging.antt =====
-- The fields of all sections in one dict (process_document of pdf_ingestion/pipeline/runner.py,
-- phase 3).
use smart_pdf_extractor.Prelude.{
  ℕ, ℤ, String, Bool, true, false, ◌||◌, not, ◌&&◌, Option, none, some, List, [], ◌∷◌, ◌++◌, min,
  ◌==◌, string_eq, if◌then◌else◌,
}
use smart_pdf_extractor.Dict
use smart_pdf_extractor.Dict.{Dict}

-- A row of a statement, and a further table of an account: what they hold is left open to a text.
abbrev pub Transaction : Type 0
Transaction = String

abbrev pub AccountTable : Type 0
AccountTable = String

-- An entry of an account: None, a text or a number.
pub data Entry : Type 0 where
  nothing : Entry
  text : String → Entry
  number : ℤ → Entry

-- The dict of an account: its lists, and its other entries. A list that is
-- missing or None reads as empty.
pub record Account : Type 0 where
  pub transactions : List Transaction
  pub tables : List AccountTable
  pub scalars : Dict String Entry

-- The value of a field. `none` among the accounts is an entry that is no dict.
pub data FieldValue : Type 0 where
  null : FieldValue
  scalar : String → FieldValue
  accounts : List (Option Account) → FieldValue

pub record Field : Type 0 where
  pub value : FieldValue
  pub original_string : String
  pub confidence : ℕ
  pub vlm_used : Bool
  pub redaction_applied : Bool
  pub provenance : ℕ

abbrev pub is_truthy : FieldValue → Bool
is_truthy null = false
is_truthy (scalar s) = not (s == "")
is_truthy (accounts []) = false
is_truthy (accounts (a ∷ accts)) = true

abbrev pub is_null : FieldValue → Bool
is_null null = true
is_null v = false

-- `value if isinstance(value, list) else []`
abbrev pub list_or_empty : FieldValue → List (Option Account)
list_or_empty (accounts accts) = accts
list_or_empty v = []

-- `all_fields[...].value or []`, if that is a list.
abbrev pub existing_accounts : FieldValue → Option (List (Option Account))
existing_accounts null = some []
existing_accounts (accounts accts) = some accts
existing_accounts (scalar s) = if s == "" then some [] else none

abbrev pub joined_accounts : Field → Field → List (Option Account) → Field
joined_accounts old new existing = record {
  value = accounts (existing ++ list_or_empty new.value);
  original_string = new.original_string;
  confidence = min old.confidence new.confidence;
  vlm_used = old.vlm_used || new.vlm_used;
  redaction_applied = old.redaction_applied || new.redaction_applied;
  provenance = new.provenance;
}

abbrev pub join_if : Field → Field → Option (List (Option Account)) → Field
join_if old new none = old
join_if old new (some existing) = joined_accounts old new existing

-- The entry of `accounts`, of the one that is there.
abbrev pub merged_accounts_field : Option Field → Field → Field
merged_accounts_field none new = new
merged_accounts_field (some old) new =
    if is_truthy new.value then join_if old new (existing_accounts old.value) else old

-- Any other entry.
abbrev pub merged_field : Option Field → Field → Field
merged_field none new = new
merged_field (some old) new = if is_null old.value && not (is_null new.value) then new else old

unfoldable pub merge_field : String → Field → Dict String Field → Dict String Field
merge_field name new all_fields =
    Dict.put name
      (if name == "accounts"
        then merged_accounts_field (Dict.lookup name all_fields) new
        else merged_field (Dict.lookup name all_fields) new)
      all_fields

unfoldable pub merge_section : Dict String Field → Dict String Field → Dict String Field
merge_section [] all_fields = all_fields
merge_section ((name, new) ∷ fields) all_fields =
    merge_section fields (merge_field name new all_fields)

unfoldable pub merge_sections : List (Dict String Field) → Dict String Field → Dict String Field
merge_sections [] all_fields = all_fields
merge_sections (fields ∷ sections) all_fields =
    merge_sections sections (merge_section fields all_fields)
