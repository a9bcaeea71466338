-- ===== src/Templates/Choice.antt =====
-- A template at work (TemplateExtractor.extract of
-- pdf_ingestion/pipeline/schemas/template_extractor.py) and the choice among the templates of a
-- theme (_try_theme_templates of pdf_ingestion/pipeline/schemas/router.py).
use smart_pdf_extractor.Prelude.{
  ℕ, ◌+◌, ◌≤◌, ◌<◌, ◌≡◌, refl, String, Bool, true, false, Option, none, some, List, [], ◌∷◌, ◌++◌,
  string_eq, if◌then◌else◌, length, All, Elem, ltb, ltb→lt, arith, ◌⊎◌, inl, inr,
}
use smart_pdf_extractor.Dict
use smart_pdf_extractor.Dict.{Dict}
use smart_pdf_extractor.Templates
use smart_pdf_extractor.Templates.{FieldAnchor, TableAnchor, SchemaTemplate, TemplateStore}

-- The dict that an extractor returns.
pub record Extraction (Field Table Abstention : Type 0) : Type 0 where
  pub fields : Dict String Field
  pub tables : List Table
  pub abstentions : List Abstention

abbrev pub is_empty {ℓ} : {A : Type ℓ} → List A → Bool
is_empty [] = true
is_empty (x ∷ xs) = false

-- The searches of a document go by regular expressions: `find_field` and `extract_table_by_header`
-- find a field or a table, or abstain.
module _ {Doc Field Table Abstention : Type 0} (find_field : Doc → FieldAnchor → Abstention ⊎ Field)
    (extract_table_by_header : Doc → TableAnchor → Abstention ⊎ Table) where
  abbrev Found : Type 0
  Found = Extraction Field Table Abstention

  abbrev keep_field : String → Abstention ⊎ Field → Found → Found
  keep_field name (inl a) e = record e { abstentions = e.abstentions ++ a ∷ [] }
  keep_field name (inr f) e = record e { fields = Dict.put name f e.fields }

  abbrev keep_table : Abstention ⊎ Table → Found → Found
  keep_table (inl a) e = record e { abstentions = e.abstentions ++ a ∷ [] }
  keep_table (inr t) e = record e { tables = e.tables ++ t ∷ [] }

  abbrev extract_fields : Doc → List FieldAnchor → Found → Found
  extract_fields doc [] e = e
  extract_fields doc (a ∷ anchors) e =
      extract_fields doc anchors (keep_field a.field_name (find_field doc a) e)

  abbrev extract_tables : Doc → List TableAnchor → Found → Found
  extract_tables doc [] e = e
  extract_tables doc (a ∷ anchors) e =
      extract_tables doc anchors (keep_table (extract_table_by_header doc a) e)

  unfoldable pub extract : SchemaTemplate → Doc → Found
  extract t doc =
      extract_tables doc t.table_anchors
        (extract_fields doc t.field_anchors (record { fields = []; tables = []; abstentions = [] }))

  unfoldable pub score : Found → ℕ
  score e = length e.fields + length e.tables

  -- The loop over the templates, with `best` and `best_score`.
  unfoldable pub best_of :
      Doc
      → List SchemaTemplate
      → Option (SchemaTemplate × Found)
      → ℕ
      → Option (SchemaTemplate × Found)
  best_of doc [] best best_score = best
  best_of doc (t ∷ templates) best best_score =
      let result = extract t doc in
      let kept = best_of doc templates best best_score in
      let replaced = best_of doc templates (some (t, result)) (score result) in
      if is_empty result.abstentions
      then (if ltb best_score (score result) then replaced else kept)
      else kept

  unfoldable pub try_theme_templates :
      Doc → String → TemplateStore → String → Option (SchemaTemplate × Found)
  try_theme_templates doc theme template_store tenant_id =
      best_of doc (Templates.find_in_theme tenant_id theme template_store) none 0

  -- What an extraction counts for: nothing if it abstained.
  abbrev pub clean_score : Found → ℕ
  clean_score e = if is_empty e.abstentions then score e else 0

  -- No clean extraction among the templates has a higher score.
  abbrev pub TopsAll : Doc → ℕ → List SchemaTemplate → Type 0
  TopsAll doc n templates = All (λ u. clean_score (extract u doc) ≤ n) templates

  -- A pick is the clean extraction of one of the templates, its score is above `n`, and no other
  -- clean one is higher.
  abbrev pub Picks : Doc → List SchemaTemplate → ℕ → SchemaTemplate × Found → Type 0
  Picks doc templates n (t, e) =
      Elem t templates
      × (e ≡ extract t doc)
      × (is_empty e.abstentions ≡ true)
      × (n < score e)
      × TopsAll doc (score e) templates

  TopsAll-weaken :
      (doc : Doc) (m n : ℕ) (templates : List SchemaTemplate)
      → m ≤ n
      → TopsAll doc m templates
      → TopsAll doc n templates
  TopsAll-weaken doc m n [] le h = tt
  TopsAll-weaken doc m n (t ∷ templates) le h =
      (omega (arith, le, h.0), TopsAll-weaken doc m n templates le h.1)

  -- The loop keeps `best` when nothing is higher, or else picks.
  abbrev Outcome :
      Doc
      → List SchemaTemplate
      → Option (SchemaTemplate × Found)
      → ℕ
      → Option (SchemaTemplate × Found)
      → Type 0
  Outcome doc templates best n result =
      ((result ≡ best) × TopsAll doc n templates)
      ⊎ ((p : SchemaTemplate × Found) × (result ≡ some p) × Picks doc templates n p)

  -- A template that is not taken is not clean or not higher.
  Outcome-keep :
      (doc : Doc) (t : SchemaTemplate) (templates : List SchemaTemplate)
      (best : Option (SchemaTemplate × Found)) (n : ℕ) (result : Option (SchemaTemplate × Found))
      → clean_score (extract t doc) ≤ n
      → Outcome doc templates best n result
      → Outcome doc (t ∷ templates) best n result
  Outcome-keep doc t templates best n result h (inl (same, tops)) = inl (same, (h, tops))
  Outcome-keep doc t templates best n result h (inr ((u, e), is, (at, ex, clean, more, tops))) =
      inr ((u, e), is, (inr at, ex, clean, more, (omega (arith, more, h), tops)))

  Outcome-take :
      (doc : Doc) (t : SchemaTemplate) (templates : List SchemaTemplate)
      (best : Option (SchemaTemplate × Found)) (n : ℕ) (result : Option (SchemaTemplate × Found))
      → is_empty ((extract t doc).abstentions) ≡ true
      → n < score (extract t doc)
      → Outcome doc templates (some (t, extract t doc)) (score (extract t doc)) result
      → Outcome doc (t ∷ templates) best n result
  Outcome-take doc t templates best n result clean more (inl (same, tops)) =
      inr ((t, extract t doc), same, (inl refl, refl, clean, more, (ground (arith, clean), tops)))
  Outcome-take doc t templates best n result c m (inr ((u, e), is, (at, ex, clean, more, tops))) =
      inr ((u, e), is, (inr at, ex, clean, omega (arith, m, more), (ground (arith, c, more), tops)))

  Outcome-step :
      (doc : Doc) (t : SchemaTemplate) (templates : List SchemaTemplate)
      (best : Option (SchemaTemplate × Found)) (n : ℕ)
      (replaced kept : Option (SchemaTemplate × Found)) (clean higher : Bool)
      → is_empty ((extract t doc).abstentions) ≡ clean
      → ltb n (score (extract t doc)) ≡ higher
      → Outcome doc templates (some (t, extract t doc)) (score (extract t doc)) replaced
      → Outcome doc templates best n kept
      → Outcome doc
          (t ∷ templates)
          best
          n
          (if clean then (if higher then replaced else kept) else kept)
  Outcome-step doc t templates best n r k true true c h taken left =
      Outcome-take doc t templates best n r c (ltb→lt n (score (extract t doc)) h) taken
  Outcome-step doc t templates best n r k true false c h taken left =
      Outcome-keep doc t templates best n k (ground (arith, c, h)) left
  Outcome-step doc t templates best n r k false higher c h taken left =
      Outcome-keep doc t templates best n k (ground (arith, c)) left

  best_of-Outcome :
      (doc : Doc) (templates : List SchemaTemplate) (best : Option (SchemaTemplate × Found)) (n : ℕ)
      → Outcome doc templates best n (best_of doc templates best n)
  unfolding best_of
  best_of-Outcome doc [] best n = inl (refl, tt)
  best_of-Outcome doc (t ∷ templates) best n =
      let e = extract t doc in
      Outcome-step doc t templates best n _ _ (is_empty e.abstentions) (ltb n (score e)) refl refl
        (best_of-Outcome doc templates (some (t, e)) (score e))
        (best_of-Outcome doc templates best n)

  -- No template hits when no clean extraction of a template of the theme has a field or a table; a
  -- hit is the clean extraction of one of the templates that the tenant sees, it has a field or a
  -- table, and no other clean extraction has more of them.
  pub try_theme_templates_best :
      (doc : Doc) (theme : String) (template_store : TemplateStore) (tenant_id : String)
      → ((try_theme_templates doc theme template_store tenant_id ≡ none)
          × TopsAll doc 0 (Templates.find_in_theme tenant_id theme template_store))
        ⊎ ((p : SchemaTemplate × Found) × (try_theme_templates doc theme template_store tenant_id
              ≡ some p)
            × Picks doc (Templates.find_in_theme tenant_id theme template_store) 0 p)
  unfolding try_theme_templates
  try_theme_templates_best doc theme template_store tenant_id =
      best_of-Outcome doc (Templates.find_in_theme tenant_id theme template_store) none 0
