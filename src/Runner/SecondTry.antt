-- ===== src/Runner/SecondTry.antt =====
-- What the second try of run_pipeline (pdf_ingestion/pipeline/runner.py) does to what was extracted.
use smart_pdf_extractor.Prelude.{
  ◌<◌, ◌≡◌, String, string_eq, Bool, true, none, some, List, length, count_if, ◌⊎◌,
}
use smart_pdf_extractor.Dict.{Dict}
use smart_pdf_extractor.Runner.Merging.{Field}
use smart_pdf_extractor.Runner.Packaging.{Abstention}
use smart_pdf_extractor.Runner.Healing.{
  Reply, null, no_json, diagnosis, no_dict, names_field, Healed, Retry,
}

-- More fields were abstained from than were extracted: more than half of those attempted.
abbrev pub MostAbstained : Dict String Field → List Abstention → Type 0
MostAbstained fields abstentions = length fields < count_if names_field abstentions

-- The answer advises a discovery, by its strategy or for want of one.
abbrev pub Advises : Reply → Type 0
Advises null = ⊥
Advises no_json = Unit
Advises (diagnosis none) = Unit
Advises (diagnosis (some strategy)) = strategy ≡ "auto_discovery"
Advises no_dict = ⊥

module _ (has_cache vlm_enabled : Bool) (reply : Reply) (retry : Retry) (fields : Dict String Field)
    (abstentions : List Abstention) where
  -- The retry's results replace the fields: it is advised and allowed, and it has more fields.
  abbrev pub Replaces : Dict String Field → List Abstention → Type 0
  Replaces new_fields new_abstentions =
      (has_cache ≡ true)
      × (vlm_enabled ≡ true)
      × Advises reply
      × (retry ≡ some (new_fields, new_abstentions))
      × (length fields < length new_fields)

  -- The retry's results replace what was found, or nothing may and it is kept.
  abbrev pub Chosen : Healed → Type 0
  Chosen h =
      Replaces h.fields h.abstentions
      ⊎ ((h.fields ≡ fields)
          × (h.abstentions ≡ abstentions)
          × ((f : Dict String Field) (a : List Abstention) → ¬ Replaces f a))
