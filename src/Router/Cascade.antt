-- ===== src/Router/Cascade.antt =====
-- route_and_extract and route_and_extract_async of pdf_ingestion/pipeline/schemas/router.py: the
-- built-in extractors, the templates of a theme, and the discovery by a language model.
use smart_pdf_extractor.Prelude.{
  ℕ, String, Bool, false, not, ◌&&◌, ◌||◌, Option, none, some, [], ◌∷◌, ◌==◌, string_eq,
  if◌then◌else◌, is_some, ◌⊎◌, inl, inr,
}
use Prim.Native.String.{◌++◌ as append}
use smart_pdf_extractor.Assembler.Documents.{AssembledDocument}
use smart_pdf_extractor.Segmenter.{
  Schema, bank_statement, custody_statement, swift_confirm, unknown,
}
use smart_pdf_extractor.Templates
use smart_pdf_extractor.Templates.{FieldAnchor, TableAnchor, SchemaTemplate, TemplateStore}
use smart_pdf_extractor.Templates.Choice.{Extraction, is_empty, try_theme_templates}
use smart_pdf_extractor.Router.Detection.{detect_schema, detect_theme}

-- The searches by regular expressions, the built-in extractors, and the abstention of an unknown
-- schema with its detail.
pub record Extractors (Field Table Abstention : Type 0) : Type 0 where
  pub find_field : AssembledDocument → FieldAnchor → Abstention ⊎ Field
  pub extract_table_by_header : AssembledDocument → TableAnchor → Abstention ⊎ Table
  pub builtin : Schema → AssembledDocument → Extraction Field Table Abstention
  pub schema_unknown : String → Abstention

-- What synthesise_template gives: a template, None, or an exception.
pub data Synthesis : Type 0 where
  learned : SchemaTemplate → Synthesis
  not_learned failed : Synthesis

-- What one run of the discovery gives: an abstention, or a schema type with an extraction; and
-- what is made of it as a template.
pub record Discovery (Field Table Abstention : Type 0) : Type 0 where
  pub discovered : Abstention ⊎ (String × Extraction Field Table Abstention)
  pub synthesis : Synthesis

pub record Tenant : Type 0 where
  pub id : String
  pub vlm_enabled : Bool

-- The answer, the store after it, and how often _discover_and_learn was entered; each time may ask
-- the model several times, in the discovery that is a parameter.
pub record Routed (Field Table Abstention : Type 0) : Type 0 where
  pub schema_type : String
  pub result : Extraction Field Table Abstention
  pub template_store : TemplateStore
  pub discoveries : ℕ

abbrev pub schema_name : Schema → String
schema_name bank_statement = "bank_statement"
schema_name custody_statement = "custody_statement"
schema_name swift_confirm = "swift_confirm"
schema_name unknown = "unknown"

unfoldable pub get_extractor : String → Option Schema
get_extractor name =
    if name == "bank_statement"
    then some bank_statement
    else if name == "custody_statement"
    then some custody_statement
    else if name == "swift_confirm"
    then some swift_confirm
    else none

-- A hint is taken if it is not empty and not "unknown".
abbrev pub resolve : Option String → AssembledDocument → String
resolve none doc = schema_name (detect_schema doc)
resolve (some hint) doc =
    if hint == "" || hint == "unknown" then schema_name (detect_schema doc) else hint

abbrev pub tenant_id : Option Tenant → String
tenant_id none = "*"
tenant_id (some t) = t.id

-- `clients`: whether a client, a redactor, a cache and a budget are given.
abbrev pub can_discover : Option Tenant → Bool → Bool
can_discover none clients = false
can_discover (some t) clients = t.vlm_enabled && clients

module _ {Field Table Abstention : Type 0} (x : Extractors Field Table Abstention) where
  abbrev pub Result : Type 0
  Result = Extraction Field Table Abstention

  abbrev pub Answer : Type 0
  Answer = Routed Field Table Abstention

  abbrev pub abstained : Abstention → Result
  abstained a = record { fields = []; tables = []; abstentions = a ∷ [] }

  abbrev pub no_match : String
  no_match = "Document structural signals do not match any known schema"

  abbrev pub unknown_answer : String → TemplateStore → Answer
  unknown_answer detail s = record {
    schema_type = "unknown";
    result = abstained (x.schema_unknown detail);
    template_store = s;
    discoveries = 0;
  }

  abbrev pub hit_of :
      AssembledDocument → Option String → String → TemplateStore → Option (SchemaTemplate × Result)
  hit_of doc none tid s = none
  hit_of doc (some theme) tid s =
      try_theme_templates x.find_field x.extract_table_by_header doc theme s tid

  abbrev pub if_hit : Option (SchemaTemplate × Result) → TemplateStore → Answer → Answer
  if_hit none s otherwise = otherwise
  if_hit (some (t, e)) s otherwise = record {
    schema_type = append "template:" t.fingerprint_key;
    result = e;
    template_store = s;
    discoveries = 0;
  }

  -- The template is saved if there is a theme to file it under.
  abbrev pub learn : Option String → String → Synthesis → TemplateStore → TemplateStore
  learn none tid y s = s
  learn (some theme) tid (learned t) s = Templates.save tid t s
  learn (some theme) tid not_learned s = s
  learn (some theme) tid failed s = s

  abbrev pub discover_and_learn :
      Option String → String → Discovery Field Table Abstention → TemplateStore → Answer
  discover_and_learn theme tid d s = elim d.discovered [
    | inl a ↦ record {
      schema_type = "unknown";
      result = abstained a;
      template_store = s;
      discoveries = 1;
    }
    | inr (name, e) ↦ record {
      schema_type = name;
      result = e;
      template_store = learn theme tid d.synthesis s;
      discoveries = 1;
    }
  ]

  -- With the lock held: the store is looked at again before the discovery.
  unfoldable pub locked_discover :
      AssembledDocument
      → Option String
      → String
      → Discovery Field Table Abstention
      → TemplateStore
      → Answer
  locked_discover doc theme tid d s =
      if_hit (hit_of doc theme tid s) s (discover_and_learn theme tid d s)

  abbrev pub route_unknown :
      AssembledDocument
      → Option Tenant
      → Bool
      → Discovery Field Table Abstention
      → TemplateStore
      → Answer
  route_unknown doc tenant clients d s =
      let theme = detect_theme doc in
      if_hit (hit_of doc theme (tenant_id tenant) s) s (
        if can_discover tenant clients
        then locked_discover doc theme (tenant_id tenant) d s
        else unknown_answer no_match s)

  -- A discovery that extracted something is preferred to the built-in result.
  abbrev pub prefer : Answer → Answer → Answer
  prefer found own =
      if not (is_empty found.result.fields) || not (is_empty found.result.tables)
      then found
      else record own { template_store = found.template_store; discoveries = found.discoveries }

  abbrev pub is_complete : Result → Bool
  is_complete e = not (is_empty e.fields) && is_empty e.abstentions

  abbrev pub with_builtin :
      AssembledDocument
      → String
      → Result
      → Option Tenant
      → Bool
      → Discovery Field Table Abstention
      → TemplateStore
      → Answer
  with_builtin doc name result tenant clients d s =
      let theme = detect_theme doc in
      let own : Answer = record {
        schema_type = name;
        result = result;
        template_store = s;
        discoveries = 0;
      } in
      if is_complete result
      then own
      else if_hit (hit_of doc theme (tenant_id tenant) s) s (
          if is_empty result.fields && is_some theme && can_discover tenant clients
          then prefer (locked_discover doc theme (tenant_id tenant) d s) own
          else own)

  abbrev pub route_known :
      AssembledDocument
      → String
      → Option Schema
      → Option Tenant
      → Bool
      → Discovery Field Table Abstention
      → TemplateStore
      → Answer
  route_known doc name none tenant clients d s =
      unknown_answer (append "No extractor available for schema type '" (append name "'")) s
  route_known doc name (some schema) tenant clients d s =
      with_builtin doc name (x.builtin schema doc) tenant clients d s

  unfoldable pub route_and_extract_async :
      AssembledDocument
      → Option String
      → Option Tenant
      → Bool
      → Discovery Field Table Abstention
      → TemplateStore
      → Answer
  unfolding get_extractor locked_discover
  route_and_extract_async doc schema_type_hint tenant clients d s =
      let schema_type = resolve schema_type_hint doc in
      if schema_type == "unknown"
      then route_unknown doc tenant clients d s
      else route_known doc schema_type (get_extractor schema_type) tenant clients d s

  abbrev pub extract_with : AssembledDocument → String → Option Schema → String × Result
  extract_with doc name none = (
    "unknown",
    abstained
        (x.schema_unknown (append "No extractor available for schema type '" (append name "'"))),
  )
  extract_with doc name (some schema) = (name, x.builtin schema doc)

  -- The synchronous version, without templates and discovery.
  unfoldable pub route_and_extract : AssembledDocument → Option String → String × Result
  unfolding get_extractor
  route_and_extract doc schema_type_hint =
      let schema_type = resolve schema_type_hint doc in
      if schema_type == "unknown"
      then ("unknown", abstained (x.schema_unknown no_match))
      else extract_with doc schema_type (get_extractor schema_type)
