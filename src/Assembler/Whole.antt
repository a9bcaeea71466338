-- ===== src/Assembler/Whole.antt =====
-- The document that the pages make (assemble of pdf_ingestion/pipeline/assembler.py).
use smart_pdf_extractor.Prelude.{
  ℕ, String, Option, none, some, List, [], ◌∷◌, ◌++◌, length, map, ltb, nat_eq,
}
use smart_pdf_extractor.Dict
use smart_pdf_extractor.Dict.{Dict}
use smart_pdf_extractor.Assembler.Documents.{Token, Block, Table, PageOutput, AssembledDocument}
use smart_pdf_extractor.Assembler.ReadingOrder.{sorted, join, xy_cut_order}
use smart_pdf_extractor.Assembler.Stitching.{stitch_multi_page_tables, merge_continuation_tables}

unfoldable pub sorted_pages : List PageOutput → List PageOutput
sorted_pages = sorted (λ p q. ltb p.page_number q.page_number)

abbrev pub all_tables : List PageOutput → List Table
all_tables [] = []
all_tables (page ∷ pages) = page.tables ++ all_tables pages

abbrev pub all_tokens : List PageOutput → List Token
all_tokens [] = []
all_tokens (page ∷ pages) = page.tokens ++ all_tokens pages

abbrev pub all_text_blocks : List PageOutput → List Block
all_text_blocks [] = []
all_text_blocks (page ∷ pages) = page.text_blocks ++ all_text_blocks pages

abbrev pub classifications_of : List PageOutput → Dict ℕ String → Dict ℕ String
classifications_of [] d = d
classifications_of (page ∷ pages) d =
    classifications_of pages (Dict.put page.page_number page.classification d)

abbrev pub with_blocks : List PageOutput → Option (List Block) → Option AssembledDocument
with_blocks pages none = none
with_blocks pages (some blocks) = some (record {
  blocks = blocks;
  tables = merge_continuation_tables (stitch_multi_page_tables (all_tables pages));
  token_stream = all_tokens pages;
  total_pages = length pages;
  page_numbers = map (λ p. p.page_number) pages;
  classifications = classifications_of pages [];
})

module _ (unit : ℕ) where
  unfoldable pub ordered_blocks : List PageOutput → Option (List Block)
  ordered_blocks [] = some []
  ordered_blocks (page ∷ pages) = join (xy_cut_order unit page.text_blocks) (ordered_blocks pages)

  -- `none` is an IndexError of a malformed box.
  unfoldable pub assemble : List PageOutput → Option AssembledDocument
  assemble page_outputs =
      let pages = sorted_pages page_outputs in with_blocks pages (ordered_blocks pages)
