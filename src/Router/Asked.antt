-- ===== src/Router/Asked.antt =====
-- When route_and_extract_async of pdf_ingestion/pipeline/schemas/router.py enters the discovery by
-- the language model.
use smart_pdf_extractor.Prelude.{◌≡◌, Bool, true, Option, none, string_eq, ◌⊎◌}
use smart_pdf_extractor.Assembler.Documents.{AssembledDocument}
use smart_pdf_extractor.Templates.{TemplateStore}
use smart_pdf_extractor.Templates.Choice.{Extraction}
use smart_pdf_extractor.Router.Detection.{detect_theme}
use smart_pdf_extractor.Router.Cascade.{Extractors, Routed, Tenant, tenant_id, can_discover, hit_of}

module _ {Field Table Abstention : Type 0} (x : Extractors Field Table Abstention) where
  abbrev Answer : Type 0
  Answer = Routed Field Table Abstention

  abbrev Result : Type 0
  Result = Extraction Field Table Abstention

  -- No discovery was run and the store is as it was; or one was, with leave, where no template hits.
  abbrev pub Asked : AssembledDocument → Option Tenant → Bool → TemplateStore → Answer → Type 0
  Asked doc tenant clients s o =
      ((o.discoveries ≡ 0) × (o.template_store ≡ s))
      ⊎ ((o.discoveries ≡ 1)
          × (can_discover tenant clients ≡ true)
          × (hit_of x doc (detect_theme doc) (tenant_id tenant) s ≡ none))
