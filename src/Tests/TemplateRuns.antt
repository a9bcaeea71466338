-- ===== src/Tests/TemplateRuns.antt =====
-- The hand-authored template of pdf_ingestion/pipeline/schemas/template_store.py, and the theorems
-- of the two template stores at it.
use smart_pdf_extractor.Prelude.{
  count_if, count_if-append, ◌++◌, Bool, ◌⊎◌, inr, Option, none, ◌≡◌, ◌≢◌, refl, String, true, some,
  List, [], ◌∷◌, arith, All, Elem, string_eq, pair_eq, ==_iff, ◌==◌, if◌then◌else◌,
}
use smart_pdf_extractor.Dict
use smart_pdf_extractor.Templates
use smart_pdf_extractor.Templates.Choice.{
  Extraction, extract, score, best_of, try_theme_templates, TopsAll, Picks,
  try_theme_templates_best,
}
use smart_pdf_extractor.Templates.{
  SchemaTemplate, FieldAnchor, TableAnchor, TemplateStore, make_fingerprint_key,
}
use smart_pdf_extractor.Templates.Store.{saved, save_visible, quarantine_hides, tenants_isolated}
use smart_pdf_extractor.Templates.Postgres
use smart_pdf_extractor.Templates.Postgres.{TemplateRow, TemplateTables, ensure_seeded}
use smart_pdf_extractor.Templates.Refinement.{Reorders, stands_for}
use smart_pdf_extractor.Templates.Runs.{
  Call, run_memory, run_postgres, runs_agree, HasRow, ensure_seeded_idem,
}

-- `lower().strip().replace(" ", "_")` at the names of the template.
abbrev slug : String → String
slug s = if s == "DBS" then "dbs" else s

abbrev dbs_giro_template : SchemaTemplate
dbs_giro_template = record {
  theme = "payments";
  document_type_label = "giro_payment";
  institution = "DBS";
  field_anchors =
      record {
        field_name = "currency";
        label_pattern = "Currency:\\s*";
        value_pattern = "[A-Z]{3}";
        normaliser = "currency";
        required = true;
      }
      ∷ [];
  table_anchors =
      record {
        table_type = "giro_transactions";
        header_signature = "Item No." ∷ "Bank Code" ∷ "Amount" ∷ [];
        min_columns = 10;
        amount_column = some 5;
      }
      ∷ [];
  source = "hand_authored";
  version = 1;
  fingerprint_key = "payments::dbs::giro_payment";
}

giro_key :
    make_fingerprint_key slug "payments" "DBS" "giro_payment" ≡ dbs_giro_template.fingerprint_key
unfolding make_fingerprint_key
giro_key = refl

abbrev key : String
key = "payments::dbs::giro_payment"

abbrev seeded : TemplateStore
seeded = record { store = (("*", key), dbs_giro_template) ∷ []; quarantined = ("t1", key) ∷ [] }

save_visible_run :
    (Templates.get "t1" key (Templates.save "t1" dbs_giro_template seeded)
      ≡ some (saved "t1" dbs_giro_template seeded))
    × Elem
        (saved "t1" dbs_giro_template seeded)
        (Templates.find_in_theme "t1" "payments" (Templates.save "t1" dbs_giro_template seeded))
save_visible_run = save_visible "t1" dbs_giro_template seeded

quarantine_hides_run :
    All
      (λ t. t.fingerprint_key ≢ key)
      (Templates.find_in_theme "t2" "payments" (Templates.quarantine "t2" key seeded))
quarantine_hides_run = quarantine_hides "t2" "payments" key seeded (refl, tt)

tenants_isolated_example :
    (Templates.find_in_theme "t2" "payments" (Templates.quarantine "t1" key seeded)
      ≡ Templates.find_in_theme "t2" "payments" seeded)
    × (Templates.get "t2" key (Templates.quarantine "t1" key seeded)
        ≡ Templates.get "t2" key seeded)
    × (Templates.find_in_theme "t2" "payments" (Templates.save "t1" dbs_giro_template seeded)
        ≡ Templates.find_in_theme "t2" "payments" seeded)
    × (Templates.get "t2" key (Templates.save "t1" dbs_giro_template seeded)
        ≡ Templates.get "t2" key seeded)
tenants_isolated_example =
    tenants_isolated "t1" "t2" "payments" key key dbs_giro_template seeded
      (ground (arith, ==_iff {K = String} "t1" "t2")) (ground (arith, ==_iff {K = String} "t1" "*"))

abbrev no_tables : TemplateTables
no_tables = record { schema_templates = []; template_quarantine = [] }

abbrev calls : List Call
calls =
    Call.save "*" dbs_giro_template
    ∷ Call.quarantine "t1" key (b'd' ∷ []) 7
    ∷ Call.save "t1" dbs_giro_template
    ∷ []

key_is_there : ◌≢◌ {A = String} key ""
key_is_there = ground (arith, ==_iff {K = String} key "")

-- A database that gives the first row last.
abbrev rotate : List TemplateRow → List TemplateRow
rotate [] = []
rotate (r ∷ rs) = rs ++ r ∷ []

rotate-Reorders : Reorders slug rotate
rotate-Reorders p [] = refl
rotate-Reorders p (r ∷ rs) = omega (arith, count_if-append p rs (r ∷ []))

runs_agree_example :
    (Postgres.get slug "t1" key (run_postgres calls no_tables)
      ≡ Templates.get "t1" key (run_memory calls (stands_for slug no_tables)))
    × ((p : SchemaTemplate → Bool)
        → count_if p
            (Postgres.find_in_theme slug rotate "t1" "payments" (run_postgres calls no_tables))
          ≡ count_if p (
              Templates.find_in_theme "t1" "payments"
                (run_memory calls (stands_for slug no_tables))))
runs_agree_example =
    runs_agree slug rotate calls no_tables "t1" key "payments" rotate-Reorders
      (key_is_there, (tt, (key_is_there, tt))) tt

seeded_once_more :
    (ensure_seeded slug
        (dbs_giro_template ∷ [])
        (ensure_seeded slug (dbs_giro_template ∷ []) no_tables)
      ≡ ensure_seeded slug (dbs_giro_template ∷ []) no_tables)
    × All
        (λ t.
          HasRow "*" t.fingerprint_key
            (ensure_seeded slug (dbs_giro_template ∷ []) no_tables).schema_templates)
        (dbs_giro_template ∷ [])
seeded_once_more = ensure_seeded_idem slug (dbs_giro_template ∷ []) no_tables

-- A document in which every label reads "SGD" and every table has one row.
abbrev find_sgd : String → FieldAnchor → String ⊎ String
find_sgd doc a = inr "SGD"

abbrev find_row : String → TableAnchor → String ⊎ List String
find_row doc a = inr ("1" ∷ [])

abbrev hit_key : Option (SchemaTemplate × Extraction String (List String) String) → Option String
hit_key none = none
hit_key (some (t, e)) = some t.fingerprint_key

giro_hit : hit_key (try_theme_templates find_sgd find_row "giro" "payments" seeded "t2") ≡ some key
unfolding try_theme_templates best_of extract score Templates.find_in_theme Dict.put
giro_hit = refl

try_theme_templates_best_run :
    ((try_theme_templates find_sgd find_row "giro" "payments" seeded "t2" ≡ none)
      × TopsAll find_sgd find_row "giro" 0 (Templates.find_in_theme "t2" "payments" seeded))
    ⊎ ((p : SchemaTemplate × Extraction String (List String) String) × (try_theme_templates find_sgd
            find_row "giro" "payments" seeded "t2"
          ≡ some p)
        × Picks find_sgd find_row "giro" (Templates.find_in_theme "t2" "payments" seeded) 0 p)
try_theme_templates_best_run =
    try_theme_templates_best find_sgd find_row "giro" "payments" seeded "t2"
