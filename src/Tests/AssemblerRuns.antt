-- ===== src/Tests/AssemblerRuns.antt =====
-- Pages of two columns, and a table over three pages.
use smart_pdf_extractor.Prelude.{
  lower, strip, is_space, lower_char, ℕ, pos, ◌+ℤ◌, ◌-ℤ◌, ◌≡◌, refl, false, Option, none, some,
  List, [], ◌∷◌, Text, map,
}
use smart_pdf_extractor.Assembler.Documents.{Block, Row, Table, PageOutput, AssembledDocument}
use smart_pdf_extractor.Assembler.ReadingOrder.{
  insert_sorted, sorted, find_horizontal_split, find_vertical_split, xy_cut_recursive, xy_cut_order,
  sort_blocks,
}
use smart_pdf_extractor.Assembler.Stitching.{
  sorted_set, get_page_range, look_ahead, stitch_from, stitch_multi_page_tables, norm, continues,
  merge_from, merge_continuation_tables,
}
use smart_pdf_extractor.Assembler.Whole.{sorted_pages, assemble}
use smart_pdf_extractor.Assembler.Kept.{Keeps, assemble-Keeps}

abbrev at : Text → ℕ → ℕ → ℕ → ℕ → Block
at t x0 y0 x1 y1 = record { text = t; bbox = some (pos x0 ∷ pos y0 ∷ pos x1 ∷ pos y1 ∷ []) }

-- Two columns of two blocks under a title.
abbrev title : Block
title = at (b't' ∷ []) 0 0 500 20

abbrev left_1 : Block
left_1 = at (b'a' ∷ []) 0 40 200 58

abbrev left_2 : Block
left_2 = at (b'b' ∷ []) 0 60 200 80

abbrev right_1 : Block
right_1 = at (b'c' ∷ []) 300 40 500 58

abbrev right_2 : Block
right_2 = at (b'd' ∷ []) 300 60 500 80

columns_in_order :
    xy_cut_order 1 (left_1 ∷ right_1 ∷ title ∷ left_2 ∷ right_2 ∷ [])
    ≡ some (title ∷ left_1 ∷ left_2 ∷ right_1 ∷ right_2 ∷ [])
unfolding xy_cut_order xy_cut_recursive find_horizontal_split find_vertical_split insert_sorted
    sorted sort_blocks ◌+ℤ◌ ◌-ℤ◌
columns_in_order = refl

abbrev row : ℕ → Row
row c = (c ∷ []) ∷ []

abbrev part : ℕ → ℕ → Table
part page c = record {
  page_number = some page;
  headers = (b'D' ∷ []) ∷ [];
  rows = row c ∷ [];
  page_range = none;
  multi_page = false;
}

-- A table over three pages is one table, but its range lacks the third page.
third_page_missing :
    map {B = Option (List ℕ) × List Row}
      (λ (t : Table). (t.page_range, t.rows))
      (merge_continuation_tables
        (stitch_multi_page_tables (part 1 b'x' ∷ part 2 b'y' ∷ part 3 b'z' ∷ [])))
    ≡ (some (1 ∷ 2 ∷ []), row b'x' ∷ row b'y' ∷ row b'z' ∷ []) ∷ []
unfolding merge_continuation_tables merge_from continues norm stitch_multi_page_tables stitch_from
    look_ahead get_page_range sorted_set lower strip is_space lower_char
third_page_missing = refl

abbrev page : ℕ → List Block → List Table → PageOutput
page n blocks tables = record {
  page_number = n;
  classification = "DIGITAL";
  tokens = [];
  tables = tables;
  text_blocks = blocks;
}

abbrev pages : List PageOutput
pages =
    page 2 (left_2 ∷ right_2 ∷ []) (part 2 b'y' ∷ [])
    ∷ page 1 (left_1 ∷ right_1 ∷ title ∷ []) (part 1 b'x' ∷ [])
    ∷ []

assemble-Keeps_example :
    (doc : AssembledDocument) × (assemble 1 pages ≡ some doc) × Keeps 1 (sorted_pages pages) doc
assemble-Keeps_example =
    assemble-Keeps 1 pages (((refl, (refl, tt)), ((refl, (refl, (refl, tt))), tt)))
