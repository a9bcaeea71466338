-- ===== src/Discovery/Fingerprint.antt =====
-- SchemaFingerprint and DiscoveredSchema of pdf_ingestion/pipeline/models.py.
use smart_pdf_extractor.Prelude.{
  ℕ, ◌≡◌, refl, ap, ◌&&◌, Option, none, some, List, [], ◌∷◌, ◌++◌, arith, nat_beq, if◌then◌else◌,
  Text, lower, strip, underscored,
}

pub record SchemaFingerprint : Type 0 where
  pub institution : Text
  pub document_type_label : Text

pub record DiscoveredFieldDefinition : Type 0 where
  pub field_name : Text
  pub description : Text
  pub location_hint : Text

pub record DiscoveredTableDefinition : Type 0 where
  pub table_type : Text
  pub expected_headers : List Text
  pub data_pattern : Text
  pub location_hint : Text

-- The schema's own fingerprint is always that of its institution and label.
pub record DiscoveredSchema : Type 0 where
  pub document_type_label : Text
  pub institution : Text
  pub metadata_fields : List DiscoveredFieldDefinition
  pub table_definitions : List DiscoveredTableDefinition

-- `institution.lower().strip().replace(" ", "_")`
unfoldable pub slug : Text → Text
slug s = underscored (strip (lower s))

-- `f"{slug}::{document_type_label}"`
unfoldable pub key : SchemaFingerprint → Text
key fp = slug fp.institution ++ b':' ∷ b':' ∷ fp.document_type_label

abbrev pub cons_first : ℕ → Option (Text × Text) → Option (Text × Text)
cons_first c none = none
cons_first c (some (a, b)) = some (c ∷ a, b)

-- `key.split("::", 1)`: what stands before and behind the first separator, if there is one.
unfoldable pub split_once : Text → Option (Text × Text)
split_once [] = none
split_once (c ∷ []) = none
split_once (c ∷ d ∷ s) =
    let rest = split_once (d ∷ s) in
    if nat_beq c b':' && nat_beq d b':' then some ([], s) else cons_first c rest

abbrev pub of_parts : Option (Text × Text) → Option SchemaFingerprint
of_parts none = none
of_parts (some (a, b)) = some (record { institution = a; document_type_label = b })

-- None stands for the ValueError.
unfoldable pub from_key : Text → Option SchemaFingerprint
unfolding split_once
from_key k = of_parts (split_once k)

split_once-append :
    (a b : Text)
    → split_once (a ++ b':' ∷ []) ≡ none
    → split_once (a ++ b':' ∷ b':' ∷ b) ≡ some (a, b)
unfolding split_once
split_once-append [] b h = refl
split_once-append (c ∷ []) b h = ground arith
split_once-append (c ∷ d ∷ a) b h = ground (arith, split_once-append (d ∷ a) b)

-- A key is read back as the normalised institution and the label, if the institution holds no
-- separator and does not end in a colon; the label may hold separators.
pub from_key-key :
    (fp : SchemaFingerprint)
    → split_once (slug fp.institution ++ b':' ∷ []) ≡ none
    → from_key (key fp)
      ≡ some (record {
        institution = slug fp.institution;
        document_type_label = fp.document_type_label;
      })
unfolding from_key key
from_key-key fp h = ap of_parts (split_once-append (slug fp.institution) fp.document_type_label h)
