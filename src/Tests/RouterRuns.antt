-- ===== src/Tests/RouterRuns.antt =====
-- Runs of the router and of the learn lock.
use smart_pdf_extractor.Prelude.{
  ◌+◌, ◌≤◌, ◌≡◌, refl, String, true, false, none, some, List, [], ◌∷◌, Text, lower, lower_char,
  is_space, codes, arith, inl, inr,
}
use smart_pdf_extractor.Assembler.Documents.{AssembledDocument}
use smart_pdf_extractor.Segmenter.{bank_statement, unknown}
use smart_pdf_extractor.Dict
use smart_pdf_extractor.Templates
use smart_pdf_extractor.Templates.{FieldAnchor, SchemaTemplate, TemplateStore}
use smart_pdf_extractor.Templates.Choice.{Extraction, extract, score, best_of, try_theme_templates}
use smart_pdf_extractor.Router.Detection.{
  apply_negative_penalty, compute_keyword_score, detect_schema, detect_theme, has_swift_structure,
}
use smart_pdf_extractor.Router.Floats.{
  quotient, doublings, nearest, exact, f_less, f_sub, f_mul, f_div, f_add,
}
use smart_pdf_extractor.Router.Preferred.{NotWorse, known_not_degraded}
use smart_pdf_extractor.Router.Asked.{Asked}
use smart_pdf_extractor.Router.LearnLock.{
  compute_layout_signature, free, LearnState, enter, miss, finish, reuse, Run, stop, moved,
}
use smart_pdf_extractor.Router.LearnOnce.{IsUseful, learn_once}
use smart_pdf_extractor.Router.Cascade.{
  Tenant, discover_and_learn, get_extractor, Extractors, Discovery, learned,
  route_and_extract_async,
}

-- A document of one block.
abbrev one_block : String → AssembledDocument
one_block s = record {
  blocks = record { text = codes s; bbox = none } ∷ [];
  tables = [];
  token_stream = [];
  total_pages = 1;
  page_numbers = 1 ∷ [];
  classifications = [];
}

abbrev giro : AssembledDocument
giro = one_block "GIRO payment"

bank_text_detected : detect_schema (one_block "Account balance") ≡ bank_statement
unfolding detect_schema apply_negative_penalty has_swift_structure lower lower_char
    compute_keyword_score is_space f_less f_add f_sub f_mul f_div quotient doublings nearest
bank_text_detected = refl

giro_unknown : detect_schema giro ≡ unknown
unfolding detect_schema apply_negative_penalty has_swift_structure lower lower_char
    compute_keyword_score is_space f_less f_add f_sub f_mul f_div quotient doublings nearest
giro_unknown = refl

giro_theme : detect_theme giro ≡ some "payments"
unfolding detect_theme lower lower_char is_space f_less compute_keyword_score quotient
giro_theme = refl

-- The tag :16R: is looked for in a text in lower case.
tag_missed : has_swift_structure (lower (codes ":20: :16R:")) ≡ false
unfolding has_swift_structure lower lower_char
tag_missed = refl

-- 27 matches of 12 keywords in 5000 words, less one penalty, are 0.035 exactly, and less as floats.
below_the_threshold :
    f_less
      (f_sub (f_div (exact 27) (f_mul (exact 12) (quotient 5000 100))) (quotient 1 100))
      (quotient 35 1000)
    ≡ true
unfolding f_less f_sub f_div f_mul quotient doublings nearest
below_the_threshold = refl

-- Extractors whose built-in ones find nothing, and whose templates find each field but no table.
abbrev found : Extraction String (List String) String
found = record { fields = ("currency", "SGD") ∷ []; tables = []; abstentions = [] }

abbrev extractors : Extractors String (List String) String
extractors = record {
  find_field = λ doc a. inr "SGD";
  extract_table_by_header = λ doc a. inl "no table";
  builtin = λ schema doc. record { fields = []; tables = []; abstentions = "nothing found" ∷ [] };
  schema_unknown = λ detail. detail;
}

abbrev giro_template : SchemaTemplate
giro_template = record {
  theme = "payments";
  document_type_label = "GIRO report";
  institution = "A Bank";
  field_anchors =
      record {
        field_name = "currency";
        label_pattern = "Currency";
        value_pattern = "[A-Z]+";
        normaliser = "text";
        required = true;
      }
      ∷ [];
  table_anchors = [];
  source = "learned";
  version = 1;
  fingerprint_key = "payments::a_bank::giro_report";
}

abbrev discovery : Discovery String (List String) String
discovery = record {
  discovered = inr ("discovered:GIRO report", found);
  synthesis = learned giro_template;
}

abbrev no_templates : TemplateStore
no_templates = record { store = []; quarantined = [] }

abbrev acme : Tenant
acme = record { id = "acme"; vlm_enabled = true }

-- The first document asks the model, and the second one hits the template that was learned.
first_asks :
    (route_and_extract_async extractors giro none
      (some acme)
      true
      discovery
      no_templates).discoveries
    ≡ 1
unfolding route_and_extract_async try_theme_templates best_of Templates.find_in_theme Templates.save
    detect_schema detect_theme apply_negative_penalty has_swift_structure lower lower_char
    compute_keyword_score is_space f_less f_add f_sub f_mul f_div quotient doublings nearest
first_asks = refl

known_not_degraded_example :
    NotWorse extractors giro
      (some acme)
      true
      discovery
      no_templates
      "bank_statement"
      (extractors.builtin bank_statement giro)
      (route_and_extract_async extractors giro
        (some "bank_statement")
        (some acme)
        true
        discovery
        no_templates)
unfolding get_extractor
known_not_degraded_example =
    known_not_degraded extractors giro (some "bank_statement") bank_statement (some acme) true
      discovery no_templates refl refl

abbrev hexdigest : Text → Text
hexdigest t = t

abbrev signature : Text
signature = compute_layout_signature hexdigest giro (some "payments")

abbrev learned_store : TemplateStore
learned_store =
    (discover_and_learn extractors (some "payments") "acme" discovery no_templates).template_store

discovery-IsUseful : IsUseful hexdigest extractors "acme" "payments" signature discovery
unfolding extract score Dict.put
discovery-IsUseful = record {
  name = "discovered:GIRO report";
  result = found;
  template = giro_template;
  extracted = refl;
  synthesised = refl;
  filed = refl;
  fits = λ doc same. omega arith;
}

abbrev after_both : LearnState
after_both = record { lock = free; template_store = learned_store; discoveries = 1; failures = 0 }

abbrev TwoCallers : Type 0
TwoCallers =
    Run hexdigest extractors "acme" "payments" signature
      (IsUseful hexdigest extractors "acme" "payments" signature)
      (record { lock = free; template_store = no_templates; discoveries = 0; failures = 0 })
      after_both

one_discovery : TwoCallers
unfolding try_theme_templates best_of Templates.find_in_theme Templates.save extract score Dict.put
    Dict.lookup
one_discovery = moved _ _ _ (enter giro no_templates 0 0 refl) (
    moved _ _ _ (miss giro no_templates 0 0 refl) (
      moved _ _ _ (finish giro no_templates 1 0 discovery discovery-IsUseful) (
        moved _ _ _ (enter giro learned_store 1 0 refl)
          (moved _ _ _ (reuse giro learned_store 1 0 (giro_template, found) refl) (stop _)))))

learn_once_example : after_both.discoveries ≤ after_both.failures + 1
learn_once_example =
    learn_once hexdigest extractors "acme" "payments" signature no_templates after_both
      one_discovery
