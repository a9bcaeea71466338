-- ===== src/Router/LearnLock.antt =====
-- The learn lock of pdf_ingestion/pipeline/schemas/learn_lock.py, held by _locked_discover of
-- router.py: callers with documents of one layout, as steps between two awaits.
use smart_pdf_extractor.Prelude.{
  ℕ, ◌+◌, ◌≡◌, ◌≢◌, String, Option, none, some, List, [], ◌∷◌, ◌++◌, ◌==◌, string_eq, if◌then◌else◌,
  map, take, Text, codes, strip, lower,
}
use smart_pdf_extractor.Assembler.Documents.{AssembledDocument, Block}
use smart_pdf_extractor.Assembler.Documents
use smart_pdf_extractor.Segmenter.{nonempty}
use smart_pdf_extractor.Templates.{SchemaTemplate, TemplateStore, quarantine, save}
use smart_pdf_extractor.Templates.Choice.{Extraction, is_empty}
use smart_pdf_extractor.Router.Cascade.{Extractors, Discovery, hit_of, discover_and_learn}

-- `"|".join(…)`
abbrev pub join_headers : List Text → Text
join_headers [] = []
join_headers (h ∷ []) = strip h
join_headers (h ∷ k ∷ headers) = strip h ++ b'|' ∷ join_headers (k ∷ headers)

-- `"\x01".join(parts)`
abbrev pub join_parts : List Text → Text
join_parts [] = []
join_parts (t ∷ []) = t
join_parts (t ∷ u ∷ ts) = t ++ 1 ∷ join_parts (u ∷ ts)

-- The headers of the tables that have some.
abbrev pub header_parts : List Documents.Table → List Text
header_parts [] = []
header_parts (t ∷ tables) =
    let rest = header_parts tables in
    if is_empty t.headers then rest else lower (join_headers t.headers) ∷ rest

-- The first 40 texts of blocks that have one.
abbrev pub block_parts : List Block → List Text
block_parts blocks = take 40 (nonempty (map (λ b. lower (strip b.text)) blocks))

abbrev pub theme_part : Option String → Text
theme_part none = codes "_"
theme_part (some theme) = if theme == "" then codes "_" else codes theme

-- The lock of one tenant and layout: free, or held by a caller that looks at the templates again,
-- or by one that discovers.
pub data Lock : Type 0 where
  free : Lock
  entered learning : AssembledDocument → Lock

-- How often the discovery was begun, and how often it ended without use.
pub record LearnState : Type 0 where
  pub lock : Lock
  pub template_store : TemplateStore
  pub discoveries : ℕ
  pub failures : ℕ

-- SHA-256 is a parameter.
module _ (hexdigest : Text → Text) where
  unfoldable pub compute_layout_signature : AssembledDocument → Option String → Text
  compute_layout_signature doc theme = take 32 (
      hexdigest (join_parts (theme_part theme ∷ header_parts doc.tables ++ block_parts doc.blocks)))

  module _ {Field Table Abstention : Type 0} (x : Extractors Field Table Abstention)
      (tid theme : String) (signature : Text)
      (Gives : Discovery Field Table Abstention → Type 0) where
    -- One step, for the tenant `tid` and one layout of `theme`.
    pub data Moves : LearnState → LearnState → Type 0 where
      -- A caller with a document of the layout takes the lock.
      enter :
          (doc : AssembledDocument) (s : TemplateStore) (n f : ℕ)
          → compute_layout_signature doc (some theme) ≡ signature
          → Moves
              (record { lock = free; template_store = s; discoveries = n; failures = f })
              (record { lock = entered doc; template_store = s; discoveries = n; failures = f })
      -- A template hits, and the lock is released.
      reuse :
          (doc : AssembledDocument) (s : TemplateStore) (n f : ℕ)
          (hit : SchemaTemplate × Extraction Field Table Abstention)
          → hit_of x doc (some theme) tid s ≡ some hit
          → Moves
              (record { lock = entered doc; template_store = s; discoveries = n; failures = f })
              (record { lock = free; template_store = s; discoveries = n; failures = f })
      -- None hits, and the discovery begins.
      miss :
          (doc : AssembledDocument) (s : TemplateStore) (n f : ℕ)
          → hit_of x doc (some theme) tid s ≡ none
          → Moves
              (record { lock = entered doc; template_store = s; discoveries = n; failures = f })
              (record {
                lock = learning doc;
                template_store = s;
                discoveries = n + 1;
                failures = f;
              })
      -- The discovery ends with what `Gives` says, which is saved, and the lock is released.
      finish :
          (doc : AssembledDocument) (s : TemplateStore) (n f : ℕ)
          (d : Discovery Field Table Abstention)
          → Gives d
          → Moves
              (record { lock = learning doc; template_store = s; discoveries = n; failures = f })
              (record {
                lock = free;
                template_store = (discover_and_learn x (some theme) tid d s).template_store;
                discoveries = n;
                failures = f;
              })
      -- The discovery ends in another way, or raises, which saves nothing.
      fail :
          (doc : AssembledDocument) (s : TemplateStore) (n f : ℕ)
          (d : Discovery Field Table Abstention)
          → Moves
              (record { lock = learning doc; template_store = s; discoveries = n; failures = f })
              (record {
                lock = free;
                template_store = (discover_and_learn x (some theme) tid d s).template_store;
                discoveries = n;
                failures = f + 1;
              })
      raise :
          (doc : AssembledDocument) (s : TemplateStore) (n f : ℕ)
          → Moves
              (record { lock = learning doc; template_store = s; discoveries = n; failures = f })
              (record { lock = free; template_store = s; discoveries = n; failures = f + 1 })
      -- Another tenant's caller saves a template, or another tenant quarantines one.
      save_elsewhere :
          (lock : Lock) (s : TemplateStore) (n f : ℕ) (other : String) (t : SchemaTemplate)
          → other ≢ tid
          → other ≢ "*"
          → Moves
              (record { lock = lock; template_store = s; discoveries = n; failures = f })
              (record {
                lock = lock;
                template_store = save other t s;
                discoveries = n;
                failures = f;
              })
      quarantine_elsewhere :
          (lock : Lock) (s : TemplateStore) (n f : ℕ) (other key : String)
          → other ≢ tid
          → other ≢ "*"
          → Moves
              (record { lock = lock; template_store = s; discoveries = n; failures = f })
              (record {
                lock = lock;
                template_store = quarantine other key s;
                discoveries = n;
                failures = f;
              })

    -- Any number of steps, in any order.
    pub data Run : LearnState → LearnState → Type 0 where
      stop : (s : LearnState) → Run s s
      moved : (s t u : LearnState) → Moves s t → Run t u → Run s u
