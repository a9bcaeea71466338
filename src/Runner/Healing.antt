-- ===== src/Runner/Healing.antt =====
-- The second try of run_pipeline (pdf_ingestion/pipeline/runner.py) with the DiagnosticRetry of
-- pdf_ingestion/pipeline/self_healing/diagnostic_retry.py. The answers of the language model and of
-- the discovery are arguments.
use smart_pdf_extractor.Prelude.{
  ℕ, ◌+◌, ◌*◌, String, string_eq, ◌==◌, Bool, false, not, ◌&&◌, Option, none, some, List, [],
  length, ltb, count_if, if◌then◌else◌,
}
use smart_pdf_extractor.Dict.{Dict}
use smart_pdf_extractor.Runner.Merging.{Field}
use smart_pdf_extractor.Runner.Accounts.{deduplicate_accounts}
use smart_pdf_extractor.Runner.Merging.{merge_sections}
use smart_pdf_extractor.Runner.Packaging.{Abstention, FinalOutput, open_abstentions, package_result}

-- What the model answers to the question for a diagnosis: nothing, no JSON, a dict with or without
-- a strategy, or JSON that is no dict.
pub data Reply : Type 0 where
  null no_json : Reply
  diagnosis : Option String → Reply
  no_dict : Reply

-- `if a.field`
abbrev pub names_field : Abstention → Bool
names_field a = elim a.field [ none ↦ false | some name ↦ not (name == "") ]

-- More than half of what was attempted was abstained from.
unfoldable pub should_retry : Dict String Field → List Abstention → Bool
should_retry fields abstentions =
    let failed = count_if names_field abstentions in
    let total_attempted = length fields + failed in
    if ltb 0 total_attempted then ltb total_attempted (2 * failed) else false

-- diagnose and get_retry_strategy; `none` is the AttributeError of a reply that is no dict, which
-- neither of them catches.
unfoldable pub strategy_of : Reply → Option String
strategy_of null = some "none"
strategy_of no_json = some "auto_discovery"
strategy_of (diagnosis none) = some "auto_discovery"
strategy_of (diagnosis (some recommended)) = some recommended
strategy_of no_dict = none

-- The fields and abstentions, and how often the model was asked for a diagnosis and the discovery
-- was run.
pub record Healed : Type 0 where
  pub fields : Dict String Field
  pub abstentions : List Abstention
  pub diagnoses : ℕ
  pub discoveries : ℕ

-- What a discovery and its extraction give: nothing if it abstained.
abbrev pub Retry : Type 0
Retry = Option (Dict String Field × List Abstention)

-- The results of the retry replace the others if they have more fields.
abbrev pub better :
    Retry → Dict String Field → List Abstention → Dict String Field × List Abstention
better none fields abstentions = (fields, abstentions)
better (some (retry_fields, retry_abstentions)) fields abstentions =
    if ltb (length fields) (length retry_fields)
    then (retry_fields, retry_abstentions)
    else (fields, abstentions)

abbrev pub heal_with :
    Option String → Bool → Retry → Dict String Field → List Abstention → Option Healed
heal_with none may_discover retry fields abstentions = none
heal_with (some strategy) may_discover retry fields abstentions =
    let (new_fields, new_abstentions) = better retry fields abstentions in
    if strategy == "auto_discovery" && may_discover
    then some (record {
      fields = new_fields;
      abstentions = new_abstentions;
      diagnoses = 1;
      discoveries = 1;
    })
    else some
        (record { fields = fields; abstentions = abstentions; diagnoses = 1; discoveries = 0 })

-- `schema_cache and tenant.vlm_enabled`
unfoldable pub heal :
    (has_cache vlm_enabled : Bool)
    → Reply
    → Retry
    → Dict String Field
    → List Abstention
    → Option Healed
unfolding strategy_of
heal has_cache vlm_enabled reply retry fields abstentions =
    if should_retry fields abstentions
    then heal_with (strategy_of reply) (has_cache && vlm_enabled) retry fields abstentions
    else some
        (record { fields = fields; abstentions = abstentions; diagnoses = 0; discoveries = 0 })

-- `validates`: whether run_validators returns for the preliminary output, and does not raise.
abbrev pub packaged : (FinalOutput → Bool) → Option Healed → Option FinalOutput
packaged validates none = none
packaged validates (some h) =
    let output = package_result h.fields h.abstentions in
    if validates output then some output else none

-- From the merge of the sections to the output; `none` if it raises.
unfoldable pub finish_healed :
    (validates : FinalOutput → Bool) (has_cache vlm_enabled : Bool)
    → Reply
    → Retry
    → List (Dict String Field)
    → List Abstention
    → Option FinalOutput
unfolding heal
finish_healed validates has_cache vlm_enabled reply retry sections all_abstentions =
    let fields = deduplicate_accounts (merge_sections sections []) in
    packaged validates
      (heal has_cache vlm_enabled reply retry fields (open_abstentions fields all_abstentions))
