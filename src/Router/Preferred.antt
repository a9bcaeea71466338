-- ===== src/Router/Preferred.antt =====
-- What route_and_extract_async of pdf_ingestion/pipeline/schemas/router.py answers.
use smart_pdf_extractor.Prelude.{
  ◌+◌, ◌<◌, ◌≡◌, refl, sym, subst, ◌∙◌, String, Bool, true, false, not, ◌&&◌, ◌||◌, Option, none,
  some, List, [], ◌∷◌, ◌==◌, string_eq, length, is_some, Bool-cases, Option-cases, ◌⊎◌, inl, inr,
  arith,
}
use Prim.Native.String.{◌++◌ as append}
use mathlib.Core.Option.{some-injective}
use smart_pdf_extractor.Assembler.Documents.{AssembledDocument}
use smart_pdf_extractor.Segmenter.{Schema}
use smart_pdf_extractor.Templates.{SchemaTemplate, TemplateStore}
use smart_pdf_extractor.Templates.Choice.{Extraction, is_empty, score, try_theme_templates_best}
use smart_pdf_extractor.Router.Detection.{detect_theme}
use smart_pdf_extractor.Router.Cascade.{
  Extractors, Synthesis, Discovery, Routed, Tenant, tenant_id, resolve, get_extractor, can_discover,
  hit_of, discover_and_learn, locked_discover, prefer, is_complete, with_builtin,
  route_and_extract_async,
}

some_items :
    {A B : Type 0} (xs : List A) (ys : List B)
    → (not (is_empty xs) || not (is_empty ys)) ≡ true
    → 0 < length xs + length ys
some_items [] [] h = cc
some_items [] (y ∷ ys) h = omega arith
some_items (x ∷ xs) ys h = omega arith

module _ {Field Table Abstention : Type 0} (x : Extractors Field Table Abstention) where
  abbrev Answer : Type 0
  Answer = Routed Field Table Abstention

  abbrev Result : Type 0
  Result = Extraction Field Table Abstention

  -- Something was extracted, and nothing abstained from.
  abbrev pub IsClean : Result → Type 0
  IsClean e = (is_empty e.abstentions ≡ true) × (0 < length e.fields + length e.tables)

  hit-IsClean :
      (doc : AssembledDocument) (theme : Option String) (tid : String) (s : TemplateStore)
      (t : SchemaTemplate) (e : Result)
      → hit_of x doc theme tid s ≡ some (t, e)
      → IsClean e
  unfolding score
  hit-IsClean doc none tid s t e h = cc
  hit-IsClean doc (some theme) tid s t e h =
      elim (try_theme_templates_best x.find_field x.extract_table_by_header doc theme s tid) [
        | inl (missed, tops) ↦ cc
        | inr (p, is, (at, ex, clean, more, tops)) ↦
            subst (λ q. IsClean q.1) (some-injective _ _ (sym is ∙ h)) (clean, more)
      ]

  -- What is answered in place of a built-in result: the result itself, where it is complete or no
  -- template hits; the clean extraction of a template that hits; or, where none hits, what a
  -- discovery extracted, which is allowed, if the built-in extractor found no field.
  abbrev pub NotWorse :
      AssembledDocument
      → Option Tenant
      → Bool
      → Discovery Field Table Abstention
      → TemplateStore
      → String
      → Result
      → Answer
      → Type 0
  NotWorse doc tenant clients d s name result o =
      let hit = hit_of x doc (detect_theme doc) (tenant_id tenant) s in
      ((o.schema_type ≡ name)
        × (o.result ≡ result)
        × ((is_complete x result ≡ true) ⊎ (hit ≡ none)))
      ⊎ ((is_complete x result ≡ false)
          × ((t : SchemaTemplate) × (hit ≡ some (t, o.result))
              × (o.schema_type ≡ append "template:" t.fingerprint_key))
          × IsClean o.result)
      ⊎ ((is_empty result.fields ≡ true)
          × (hit ≡ none)
          × (can_discover tenant clients ≡ true)
          × (d.discovered ≡ inr (o.schema_type, o.result))
          × (0 < length o.result.fields + length o.result.tables))

  prefer-NotWorse :
      (doc : AssembledDocument) (tenant : Option Tenant) (clients : Bool) (s : TemplateStore)
      (name : String) (result : Result) (y : Abstention ⊎ (String × Result)) (z : Synthesis)
      → is_empty result.fields ≡ true
      → hit_of x doc (detect_theme doc) (tenant_id tenant) s ≡ none
      → can_discover tenant clients ≡ true
      → let own : Answer = record {
        schema_type = name;
        result = result;
        template_store = s;
        discoveries = 0;
      } in
        let d : Discovery Field Table Abstention = record { discovered = y; synthesis = z } in
        NotWorse doc tenant clients d s name result
          (prefer x (discover_and_learn x (detect_theme doc) (tenant_id tenant) d s) own)
  prefer-NotWorse doc tenant clients s name result (inl a) z h missed c =
      inl (refl, refl, inr missed)
  prefer-NotWorse doc tenant clients s name result (inr (found, e)) z h missed c =
      elim (Bool-cases (not (is_empty e.fields) || not (is_empty e.tables))) [
        | inl k ↦ rw k (inr (inr (h, missed, c, refl, some_items e.fields e.tables k)))
        | inr k ↦ rw k (inl (refl, refl, inr missed))
      ]

  with_builtin-NotWorse :
      (doc : AssembledDocument) (name : String) (result : Result) (tenant : Option Tenant)
      (clients : Bool) (d : Discovery Field Table Abstention) (s : TemplateStore)
      → NotWorse doc tenant clients d s name result
          (with_builtin x doc name result tenant clients d s)
  unfolding locked_discover
  with_builtin-NotWorse doc name result tenant clients d s =
      elim (Bool-cases (is_complete x result)) [
        | inl e ↦ rw e (inl (refl, refl, inl refl))
        | inr e ↦ elim (Option-cases (hit_of x doc (detect_theme doc) (tenant_id tenant) s)) [
          | inr ((t, r), f) ↦
              simp (e, f)
                (inr (
                  inl (
                    refl,
                    (t, refl, refl),
                    hit-IsClean doc (detect_theme doc) (tenant_id tenant) s t r f,
                  )))
          | inl f ↦
              elim (Bool-cases (
                is_empty result.fields
                && is_some (detect_theme doc)
                && can_discover tenant clients)) [
                  | inl c ↦
                      simp (e, f, c)
                        (simp (e, f) at
                          (prefer-NotWorse doc tenant clients s name result d.discovered d.synthesis
                            (ground (arith, c)) f (ground (arith, c))))
                  | inr c ↦ simp (e, f, c) (inl (refl, refl, inr refl))
                ]
        ]
      ]

  -- Where a built-in extractor is chosen, by the hint or by detection, its result is answered under
  -- its name, if it is complete or no template of the document's theme hits; or it is not complete
  -- and the clean extraction of the template that hits is answered under the template's key; or it
  -- has no fields, no template hits, and what is answered is what a discovery extracted, which was
  -- allowed and has a field or a table.
  pub known_not_degraded :
      (doc : AssembledDocument) (hint : Option String) (schema : Schema) (tenant : Option Tenant)
      (clients : Bool) (d : Discovery Field Table Abstention) (s : TemplateStore)
      → (resolve hint doc == "unknown") ≡ false
      → get_extractor (resolve hint doc) ≡ some schema
      → NotWorse doc tenant clients d s
          (resolve hint doc)
          (x.builtin schema doc)
          (route_and_extract_async x doc hint tenant clients d s)
  unfolding route_and_extract_async
  known_not_degraded doc hint schema tenant clients d s h k =
      rw (h, k)
        (with_builtin-NotWorse doc (resolve hint doc) (x.builtin schema doc) tenant clients d s)
