-- ===== src/Assembler/Stitching.antt =====
-- Tables that span pages, and the whole document (_stitch_multi_page_tables, _get_page_range,
-- merge_continuation_tables and assemble of pdf_ingestion/pipeline/assembler.py).
use smart_pdf_extractor.Prelude.{
  ℕ, ◌+◌, Bool, true, not, ◌&&◌, Option, none, some, List, [], ◌∷◌, ◌++◌, ◌==◌, nat_eq, list_eq,
  leb, ltb, if◌then◌else◌, length, any, get_or, lower, strip, Text, map, select,
}
use smart_pdf_extractor.Assembler.Documents.{Table}

-- `sorted` of a set of pages, from a list of them.
abbrev pub add_page : ℕ → List ℕ → List ℕ
add_page p [] = p ∷ []
add_page p (q ∷ pages) =
    let later = q ∷ add_page p pages in
    if p == q then q ∷ pages else if ltb p q then p ∷ q ∷ pages else later

unfoldable pub sorted_set : List ℕ → List ℕ
sorted_set [] = []
sorted_set (p ∷ pages) = add_page p (sorted_set pages)

abbrev pub pages_of : Option (List ℕ) → Option ℕ → List ℕ
pages_of (some pages) page = pages
pages_of none (some page) = page ∷ []
pages_of none none = []

unfoldable pub get_page_range : Table → Table → List ℕ
unfolding sorted_set
get_page_range table1 table2 =
    sorted_set (
      pages_of table1.page_range table1.page_number
      ++ pages_of table2.page_range table2.page_number)

-- The dict of `current` with the rows of the next table.
abbrev pub stitched_with : Table → Table → Table
stitched_with current next_table = record current {
  rows = current.rows ++ next_table.rows;
  page_range = some (get_page_range current next_table);
  multi_page = true;
}

abbrev pub is_next_page : Table → Table → Bool
is_next_page current next_table =
    get_or next_table.page_number 0 == get_or current.page_number 0 + 1

abbrev pub same_headers : Table → Table → Bool
same_headers current next_table =
    ltb 0 (length current.headers)
    && ltb 0 (length next_table.headers)
    && (current.headers == next_table.headers)

abbrev pub in_skip : ℕ → List ℕ → Bool
in_skip i skip_indices = any (λ k. k == i) skip_indices

-- The loop over `j`: the tables from place `j` on, and the places to skip.
unfoldable pub look_ahead : Table → ℕ → List Table → List ℕ → Table × List ℕ
look_ahead current j [] skip_indices = (current, skip_indices)
look_ahead current j (next_table ∷ tables) skip_indices =
    let passed = look_ahead current (j + 1) tables skip_indices in
    let merged = look_ahead (stitched_with current next_table) (j + 1) tables (j ∷ skip_indices) in
    if in_skip j skip_indices
    then passed
    else if not (is_next_page current next_table)
    then (current, skip_indices)
    else if same_headers current next_table
    then merged
    else (current, skip_indices)

-- The loop over `i`.
unfoldable pub stitch_from : ℕ → List Table → List ℕ → List Table
stitch_from i [] skip_indices = []
stitch_from i (table ∷ tables) skip_indices =
    let (current, skipped) = look_ahead table (i + 1) tables skip_indices in
    let kept = current ∷ stitch_from (i + 1) tables skipped in
    let passed = stitch_from (i + 1) tables skip_indices in
    if in_skip i skip_indices then passed else kept

unfoldable pub stitch_multi_page_tables : List Table → List Table
stitch_multi_page_tables tables = if leb (length tables) 1 then tables else stitch_from 0 tables []

-- `_norm`: the headers that are not empty, stripped and in lower case.
abbrev pub is_empty_text : Text → Bool
is_empty_text [] = true
is_empty_text (c ∷ t) = Bool.false

unfoldable pub norm : List Text → List Text
norm headers = map (λ h. lower (strip h)) (select (λ h. not (is_empty_text h)) headers)

unfoldable pub continues : Table → Table → Bool
unfolding norm
continues prev table = (norm table.headers == norm prev.headers) && ltb 0 (length table.headers)

abbrev pub continued : Table → Table → Table
continued prev table = record prev {
  rows = prev.rows ++ table.rows;
  page_range = some (sorted_set (get_or prev.page_range [] ++ get_or table.page_range []));
}

-- The loop over the tables, with the last one of `merged`.
unfoldable pub merge_from : Table → List Table → List Table
merge_from prev [] = prev ∷ []
merge_from prev (table ∷ tables) =
    let same = merge_from (continued prev table) tables in
    let other = prev ∷ merge_from table tables in if continues prev table then same else other

unfoldable pub merge_continuation_tables : List Table → List Table
merge_continuation_tables [] = []
merge_continuation_tables (table ∷ tables) = merge_from table tables
