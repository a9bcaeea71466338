-- ===== src/Assembler/Kept.antt =====
-- What a document has of its pages (assemble of pdf_ingestion/pipeline/assembler.py).
use smart_pdf_extractor.Prelude.{
  ℕ, ◌≡◌, refl, ap, sym, ◌∙◌, Bool, some, List, [], ◌∷◌, count_if, count_if-append, All, Bool-cases,
  inl, inr,
}
use smart_pdf_extractor.Assembler.Documents.{Block, PageOutput, AssembledDocument}
use smart_pdf_extractor.Assembler.ReadingOrder.{insert_sorted, sorted, xy_cut_order}
use smart_pdf_extractor.Assembler.NoBlockLost.{
  HasCorner, Rearranges, xy_cut_order-Rearranges, join-Rearranges,
}
use smart_pdf_extractor.Assembler.Stitching.{stitch_multi_page_tables}
use smart_pdf_extractor.Assembler.NoRowLost.{
  all_rows, merge-rows, stitch-rows, NoneContinues, merge-NoneContinues,
}
use smart_pdf_extractor.Assembler.Whole.{
  sorted_pages, all_tables, all_tokens, all_text_blocks, ordered_blocks, with_blocks, assemble,
}

abbrev pub HasCorners : PageOutput → Type 0
HasCorners page = All HasCorner page.text_blocks

module _ {ℓ κ} {A : Type ℓ} (P : A → Type κ) (less : A → A → Bool) where
  All-insert_sorted : (a : A) (xs : List A) → P a → All P xs → All P (insert_sorted less a xs)
  unfolding insert_sorted
  All-insert_sorted a [] h all = (h, tt)
  All-insert_sorted a (b ∷ xs) h all = elim (Bool-cases (less b a)) [
    | inl e ↦ rw e (all.0, All-insert_sorted a xs h all.1)
    | inr e ↦ rw e (h, all)
  ]

  All-sorted : (xs : List A) → All P xs → All P (sorted less xs)
  unfolding sorted
  All-sorted [] h = tt
  All-sorted (a ∷ xs) h = All-insert_sorted a (sorted less xs) h.0 (All-sorted xs h.1)

module _ (unit : ℕ) where
  ordered_blocks-Rearranges :
      (pages : List PageOutput)
      → All HasCorners pages
      → Rearranges (all_text_blocks pages) (ordered_blocks unit pages)
  unfolding ordered_blocks
  ordered_blocks-Rearranges [] h = ([], refl, λ p. refl)
  ordered_blocks-Rearranges (page ∷ pages) h =
      join-Rearranges page.text_blocks (all_text_blocks pages) _
        (xy_cut_order unit page.text_blocks) (ordered_blocks unit pages)
        (λ p. sym (count_if-append p page.text_blocks (all_text_blocks pages)))
        (xy_cut_order-Rearranges unit page.text_blocks h.0) (ordered_blocks-Rearranges pages h.1)

  -- What the document keeps of the pages in their order: the blocks, as often, the tokens and the
  -- rows of the tables, in order; and no table continues the one before it.
  pub record Keeps (pages : List PageOutput) (doc : AssembledDocument) : Type 0 where
    pub blocks_kept :
        (p : Block → Bool) → count_if p doc.blocks ≡ count_if p (all_text_blocks pages)
    pub tokens_kept : doc.token_stream ≡ all_tokens pages
    pub rows_kept : all_rows doc.tables ≡ all_rows (all_tables pages)
    pub joined : NoneContinues doc.tables

  -- Where every box that is there has two numbers at least, the pages are assembled. The document
  -- has the tokens of the pages and the rows of their tables, in the order of the pages and none
  -- lost, each text block as often as the pages have it, and no table
  -- that has headers, and the same as the table before it.
  pub assemble-Keeps :
      (page_outputs : List PageOutput)
      → All HasCorners page_outputs
      → (doc : AssembledDocument) × (assemble unit page_outputs ≡ some doc)
        × Keeps (sorted_pages page_outputs) doc
  unfolding assemble sorted_pages
  assemble-Keeps page_outputs h =
      let pages = sorted_pages page_outputs in
      let (blocks, same, counts) =
        ordered_blocks-Rearranges pages (All-sorted HasCorners _ page_outputs h) in
      (
        _,
        ap (with_blocks pages) same,
        record {
          blocks_kept = counts;
          tokens_kept = refl;
          rows_kept =
              merge-rows (stitch_multi_page_tables (all_tables pages))
              ∙ stitch-rows (all_tables pages);
          joined = merge-NoneContinues (stitch_multi_page_tables (all_tables pages));
        },
      )
