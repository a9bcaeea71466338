-- ===== src/Discovery/Cache.antt =====
-- SchemaCache of pdf_ingestion/pipeline/discovery/schema_cache.py. The clock is an argument.
use smart_pdf_extractor.Prelude.{
  is_some, get_or, ℕ, ◌+◌, String, Bool, true, false, Option, none, some, List, [], ◌∷◌, map, ◌==◌,
  string_eq, pair_eq, list_eq, nat_eq, if◌then◌else◌, Text,
}
use smart_pdf_extractor.Dict
use smart_pdf_extractor.Dict.{Dict}
use smart_pdf_extractor.Discovery.Fingerprint.{
  SchemaFingerprint, DiscoveredFieldDefinition, DiscoveredTableDefinition, DiscoveredSchema, key,
}

-- The dicts that `_serialize_schema` builds; what `_deserialize_schema` reads by `get` may be
-- missing.
pub record TableDict : Type 0 where
  pub table_type : Text
  pub expected_headers : Option (List Text)
  pub data_pattern : Option Text
  pub location_hint : Option Text

pub record SchemaDict : Type 0 where
  pub document_type_label : Text
  pub institution : Text
  pub metadata_fields : Option (List DiscoveredFieldDefinition)
  pub table_definitions : Option (List TableDict)

abbrev pub table_dict : DiscoveredTableDefinition → TableDict
table_dict t = record {
  table_type = t.table_type;
  expected_headers = some t.expected_headers;
  data_pattern = some t.data_pattern;
  location_hint = some t.location_hint;
}

abbrev pub table_definition : TableDict → DiscoveredTableDefinition
table_definition t = record {
  table_type = t.table_type;
  expected_headers = get_or t.expected_headers [];
  data_pattern = get_or t.data_pattern [];
  location_hint = get_or t.location_hint [];
}

unfoldable pub serialize_schema : DiscoveredSchema → SchemaDict
serialize_schema s = record {
  document_type_label = s.document_type_label;
  institution = s.institution;
  metadata_fields = some s.metadata_fields;
  table_definitions = some (map table_dict s.table_definitions);
}

unfoldable pub deserialize_schema : SchemaDict → DiscoveredSchema
deserialize_schema d = record {
  document_type_label = d.document_type_label;
  institution = d.institution;
  metadata_fields = get_or d.metadata_fields [];
  table_definitions = map table_definition (get_or d.table_definitions []);
}

pub record CacheEntry : Type 0 where
  pub fingerprint_key : Text
  pub institution : Text
  pub document_type_label : Text
  pub schema_json : SchemaDict
  pub created_at : ℕ
  pub updated_at : ℕ
  pub usage_count : ℕ
  pub needs_refinement : Bool
  pub approved : Bool

-- `_store`: an entry for each tenant and fingerprint key.
abbrev pub SchemaCache : Type 0
SchemaCache = Dict (String × Text) CacheEntry

abbrev pub used : ℕ → CacheEntry → CacheEntry
used now e = record e { usage_count = e.usage_count + 1; updated_at = now }

abbrev pub hit :
    String × Text → ℕ → Option CacheEntry → SchemaCache → Option DiscoveredSchema × SchemaCache
hit k now none c = (none, c)
hit k now (some e) c =
    if e.approved
    then (some (deserialize_schema e.schema_json), Dict.put k (used now e) c)
    else (none, c)

-- Only an approved entry is a hit, and counts a use.
unfoldable pub lookup :
    SchemaFingerprint → String → ℕ → SchemaCache → Option DiscoveredSchema × SchemaCache
lookup fp tid now c = hit (tid, key fp) now (Dict.lookup (tid, key fp) c) c

abbrev pub new_entry : DiscoveredSchema → SchemaFingerprint → Bool → Bool → ℕ → CacheEntry
new_entry schema fp needs_refinement approved now = record {
  fingerprint_key = key fp;
  institution = schema.institution;
  document_type_label = schema.document_type_label;
  schema_json = serialize_schema schema;
  created_at = now;
  updated_at = now;
  usage_count = 1;
  needs_refinement = needs_refinement;
  approved = approved;
}

unfoldable pub store :
    DiscoveredSchema → SchemaFingerprint → String → Bool → Bool → ℕ → SchemaCache → SchemaCache
store schema fp tid needs_refinement approved now c =
    Dict.put (tid, key fp) (new_entry schema fp needs_refinement approved now) c

unfoldable pub invalidate : SchemaFingerprint → String → SchemaCache → Bool × SchemaCache
invalidate fp tid c =
    let existed = is_some (Dict.lookup (tid, key fp) c) in
    (existed, if existed then Dict.remove (tid, key fp) c else c)

abbrev pub marked : ℕ → CacheEntry → CacheEntry
marked now e = record e { needs_refinement = true; updated_at = now }

abbrev pub mark : String × Text → ℕ → Option CacheEntry → SchemaCache → Bool × SchemaCache
mark k now none c = (false, c)
mark k now (some e) c = (true, Dict.put k (marked now e) c)

unfoldable pub mark_needs_refinement :
    SchemaFingerprint → String → ℕ → SchemaCache → Bool × SchemaCache
mark_needs_refinement fp tid now c = mark (tid, key fp) now (Dict.lookup (tid, key fp) c) c

-- What the listing shows of an entry.
pub record Listed : Type 0 where
  pub fingerprint_key : Text
  pub institution : Text
  pub document_type_label : Text
  pub created_at : ℕ
  pub updated_at : ℕ
  pub usage_count : ℕ
  pub needs_refinement : Bool

abbrev pub listed : CacheEntry → Listed
listed e = record {
  fingerprint_key = e.fingerprint_key;
  institution = e.institution;
  document_type_label = e.document_type_label;
  created_at = e.created_at;
  updated_at = e.updated_at;
  usage_count = e.usage_count;
  needs_refinement = e.needs_refinement;
}

unfoldable pub list_for_tenant : String → SchemaCache → List Listed
list_for_tenant tid [] = []
list_for_tenant tid (((owner, k), e) ∷ c) =
    let rest = list_for_tenant tid c in if owner == tid then listed e ∷ rest else rest
