-- ===== src/Templates.antt =====
-- Template data of pdf_ingestion/pipeline/schemas/template_extractor.py and the in-memory store of
-- pdf_ingestion/pipeline/schemas/template_store.py. Regular expressions stay texts.
pub mod Postgres
pub mod Store
pub mod Refinement
pub mod Runs
pub mod Choice
use smart_pdf_extractor.Prelude.{
  ℕ, ◌+◌, String, Bool, true, false, ◌&&◌, ◌||◌, not, Option, none, some, List, [], ◌∷◌, ◌++◌, ◌==◌,
  string_eq, pair_eq, if◌then◌else◌, any, select,
}
use Prim.Native.String.{◌++◌ as append}
use smart_pdf_extractor.Dict
use smart_pdf_extractor.Dict.{Dict}

pub record FieldAnchor : Type 0 where
  pub field_name : String
  pub label_pattern : String
  pub value_pattern : String
  pub normaliser : String
  pub required : Bool

pub record TableAnchor : Type 0 where
  pub table_type : String
  pub header_signature : List String
  pub min_columns : ℕ
  pub amount_column : Option ℕ

pub record SchemaTemplate : Type 0 where
  pub theme : String
  pub document_type_label : String
  pub institution : String
  pub field_anchors : List FieldAnchor
  pub table_anchors : List TableAnchor
  pub source : String
  pub version : ℕ
  pub fingerprint_key : String

-- The dict of a template: the keys that `from_dict` reads by `data.get` may be missing.
pub record TemplateDict : Type 0 where
  pub theme : String
  pub document_type_label : String
  pub institution : String
  pub field_anchors : Option (List FieldAnchor)
  pub table_anchors : Option (List TableAnchor)
  pub source : Option String
  pub version : Option ℕ
  pub fingerprint_key : Option String

abbrev pub get_or {ℓ} : {A : Type ℓ} → Option A → A → A
get_or none d = d
get_or (some a) d = a

-- `slug` is `s.lower().strip().replace(" ", "_")`.
module _ (slug : String → String) where
  unfoldable pub make_fingerprint_key : String → String → String → String
  make_fingerprint_key theme institution label =
      append theme (append "::" (append (slug institution) (append "::" (slug label))))

  -- The dataclass constructor, with __post_init__: an empty key is computed.
  unfoldable pub schema_template : SchemaTemplate → SchemaTemplate
  schema_template t =
      if t.fingerprint_key == ""
      then record t {
        fingerprint_key = make_fingerprint_key t.theme t.institution t.document_type_label;
      }
      else t

  unfoldable pub from_dict : TemplateDict → SchemaTemplate
  unfolding schema_template
  from_dict d = schema_template (record {
    theme = d.theme;
    document_type_label = d.document_type_label;
    institution = d.institution;
    field_anchors = get_or d.field_anchors [];
    table_anchors = get_or d.table_anchors [];
    source = get_or d.source "hand_authored";
    version = get_or d.version 1;
    fingerprint_key = get_or d.fingerprint_key "";
  })

-- `asdict(self)`
unfoldable pub to_dict : SchemaTemplate → TemplateDict
to_dict t = record {
  theme = t.theme;
  document_type_label = t.document_type_label;
  institution = t.institution;
  field_anchors = some t.field_anchors;
  table_anchors = some t.table_anchors;
  source = some t.source;
  version = some t.version;
  fingerprint_key = some t.fingerprint_key;
}

-- A tenant and a fingerprint.
abbrev pub Key : Type 0
Key = String × String

-- TemplateStore: the templates, and what each tenant has quarantined.
pub record TemplateStore : Type 0 where
  pub store : Dict Key SchemaTemplate
  pub quarantined : List Key

abbrev pub or_else {ℓ} : {A : Type ℓ} → Option A → Option A → Option A
or_else none b = b
or_else (some a) b = some a

unfoldable pub get : String → String → TemplateStore → Option SchemaTemplate
get tid k s = or_else (Dict.lookup (tid, k) s.store) (Dict.lookup ("*", k) s.store)

abbrev pub is_quarantined : String → String → List Key → Bool
is_quarantined tid k q = any (λ p. p == (tid, k)) q

-- The filter of the loop of find_in_theme.
abbrev pub in_theme : String → String → List Key → Key → SchemaTemplate → Bool
in_theme tid theme q (owner, k) t =
    t.theme == theme && (owner == tid || owner == "*") && not (is_quarantined tid k q)

abbrev pub templates_in : String → String → List Key → Dict Key SchemaTemplate → List SchemaTemplate
templates_in tid theme q [] = []
templates_in tid theme q ((k, t) ∷ d) =
    let rest = templates_in tid theme q d in if in_theme tid theme q k t then t ∷ rest else rest

unfoldable pub find_in_theme : String → String → TemplateStore → List SchemaTemplate
find_in_theme tid theme s = templates_in tid theme s.quarantined s.store

-- A set: adding a member changes nothing.
unfoldable pub quarantine : String → String → TemplateStore → TemplateStore
quarantine tid k s =
    if is_quarantined tid k s.quarantined
    then s
    else record s { quarantined = s.quarantined ++ (tid, k) ∷ [] }

abbrev pub next_version : Option ℕ → SchemaTemplate → SchemaTemplate
next_version none t = t
next_version (some v) t = record t { version = v + 1 }

abbrev pub version_of : Option SchemaTemplate → Option ℕ
version_of none = none
version_of (some t) = some t.version

-- The saved template replaces an older one with the next version, and its quarantine is lifted.
unfoldable pub save : String → SchemaTemplate → TemplateStore → TemplateStore
save tid t s =
    let t' = next_version (version_of (Dict.lookup (tid, t.fingerprint_key) s.store)) t in
    record {
      store = Dict.put (tid, t.fingerprint_key) t' s.store;
      quarantined = select (λ p. not (p == (tid, t.fingerprint_key))) s.quarantined;
    }
