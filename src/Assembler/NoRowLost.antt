-- ===== src/Assembler/NoRowLost.antt =====
-- Tables are joined and no row is lost or moved (pdf_ingestion/pipeline/assembler.py).
use smart_pdf_extractor.Prelude.{
  ℕ, ◌+◌, ◌<◌, ◌≡◌, refl, ap, ◌∙◌, true, false, List, [], ◌∷◌, ◌++◌, nat_eq, list_eq, ==_iff,
  if◌then◌else◌, length, arith, Bool-cases, leb, inl, inr,
}
use mathlib.Core.List.{append_assoc}
use smart_pdf_extractor.Assembler.Documents.{Row, Table}
use smart_pdf_extractor.Assembler.Stitching.{
  in_skip, is_next_page, same_headers, stitched_with, look_ahead, stitch_from,
  stitch_multi_page_tables, continues, continued, merge_from, merge_continuation_tables,
}

-- The rows of all tables, in order.
abbrev pub all_rows : List Table → List Row
all_rows [] = []
all_rows (table ∷ tables) = table.rows ++ all_rows tables

merge_from-rows :
    (prev : Table) (tables : List Table)
    → all_rows (merge_from prev tables) ≡ prev.rows ++ all_rows tables
unfolding merge_from
merge_from-rows prev [] = refl
merge_from-rows prev (t ∷ tables) = elim (Bool-cases (continues prev t)) [
  | inl e ↦
      rw e (
        merge_from-rows (continued prev t) tables ∙ append_assoc prev.rows t.rows (all_rows tables))
  | inr e ↦ rw e (ap (λ rows. prev.rows ++ rows) (merge_from-rows t tables))
]

pub merge-rows :
    (tables : List Table) → all_rows (merge_continuation_tables tables) ≡ all_rows tables
unfolding merge_continuation_tables
merge-rows [] = refl
merge-rows (t ∷ tables) = merge_from-rows t tables

-- The rows of the tables from place `j` on that are not skipped.
abbrev live : ℕ → List Table → List ℕ → List Row
live j [] skip = []
live j (t ∷ tables) skip =
    if in_skip j skip then live (j + 1) tables skip else t.rows ++ live (j + 1) tables skip

in_skip-cons : (i j : ℕ) (skip : List ℕ) → i < j → in_skip j (i ∷ skip) ≡ in_skip j skip
in_skip-cons i j skip h = ground (arith, ==_iff i j)

live-cons :
    (i j : ℕ) (tables : List Table) (skip : List ℕ)
    → i < j
    → live j tables (i ∷ skip) ≡ live j tables skip
live-cons i j [] skip h = refl
live-cons i j (t ∷ tables) skip h =
    ground (arith, in_skip-cons i j skip h, live-cons i (j + 1) tables skip)

look_ahead-behind :
    (k j : ℕ) (current : Table) (tables : List Table) (skip : List ℕ)
    → k < j
    → in_skip k (look_ahead current j tables skip).1 ≡ in_skip k skip
unfolding look_ahead
look_ahead-behind k j current [] skip h = refl
look_ahead-behind k j current (t ∷ tables) skip h = ground (
  arith,
  look_ahead-behind k (j + 1) current tables skip,
  look_ahead-behind k (j + 1) (stitched_with current t) tables (j ∷ skip),
  ==_iff j k,
)

in_skip_self : (j : ℕ) (skip : List ℕ) → in_skip j (j ∷ skip) ≡ true
in_skip_self j skip = ground (arith, ==_iff j j)

look_ahead-rows :
    (j : ℕ) (current : Table) (tables : List Table) (skip : List ℕ)
    → let (joined, skipped) = look_ahead current j tables skip in
      joined.rows ++ live j tables skipped ≡ current.rows ++ live j tables skip
unfolding look_ahead
look_ahead-rows j current [] skip = refl
look_ahead-rows j current (t ∷ tables) skip = elim (Bool-cases (in_skip j skip)) [
  | inl e ↦ rw e (
      rw (look_ahead-behind j (j + 1) current tables skip (omega arith) ∙ e)
        (look_ahead-rows (j + 1) current tables skip))
  | inr e ↦ elim (Bool-cases (is_next_page current t)) [
    | inr far ↦ rw (e, far, e) refl
    | inl near ↦ elim (Bool-cases (same_headers current t)) [
      | inr other ↦ rw (e, near, other, e) refl
      | inl same ↦
          let later = look_ahead (stitched_with current t) (j + 1) tables (j ∷ skip) in
          let seen : in_skip j later.1 ≡ true =
            look_ahead-behind j (j + 1) (stitched_with current t) tables (j ∷ skip) (omega arith)
            ∙ in_skip_self j skip in
          rw (e, near, same)
            (rw seen (
              look_ahead-rows (j + 1) (stitched_with current t) tables (j ∷ skip)
              ∙ ap (λ rows. (current.rows ++ t.rows) ++ rows)
                  (live-cons j (j + 1) tables skip (omega arith))
              ∙ append_assoc current.rows t.rows (live (j + 1) tables skip)))
    ]
  ]
]

stitch_from-rows :
    (i : ℕ) (tables : List Table) (skip : List ℕ)
    → all_rows (stitch_from i tables skip) ≡ live i tables skip
unfolding stitch_from
stitch_from-rows i [] skip = refl
stitch_from-rows i (t ∷ tables) skip = elim (Bool-cases (in_skip i skip)) [
  | inl e ↦ rw e (stitch_from-rows (i + 1) tables skip)
  | inr e ↦
      let (joined, skipped) = look_ahead t (i + 1) tables skip in
      rw e (
        ap (λ rows. joined.rows ++ rows) (stitch_from-rows (i + 1) tables skipped)
        ∙ look_ahead-rows (i + 1) t tables skip)
]

live_all : (j : ℕ) (tables : List Table) → live j tables [] ≡ all_rows tables
live_all j [] = refl
live_all j (t ∷ tables) = ap (λ rows. t.rows ++ rows) (live_all (j + 1) tables)

pub stitch-rows :
    (tables : List Table) → all_rows (stitch_multi_page_tables tables) ≡ all_rows tables
unfolding stitch_multi_page_tables
stitch-rows tables = elim (Bool-cases (leb (length tables) 1)) [
  | inl e ↦ rw e refl
  | inr e ↦ rw e (stitch_from-rows 0 tables [] ∙ live_all 0 tables)
]

-- No table has the headers of the one before it: none continues it.
abbrev pub NoneContinues : List Table → Type 0
NoneContinues [] = Unit
NoneContinues (t ∷ []) = Unit
NoneContinues (t ∷ u ∷ tables) = (continues t u ≡ false) × NoneContinues (u ∷ tables)

merge_from-after :
    (before prev : Table) (tables : List Table)
    → continues before prev ≡ false
    → NoneContinues (before ∷ merge_from prev tables)
unfolding merge_from continues
merge_from-after before prev [] h = (h, tt)
merge_from-after before prev (t ∷ tables) h = elim (Bool-cases (continues prev t)) [
  | inl e ↦ rw e (merge_from-after before (continued prev t) tables h)
  | inr e ↦ rw e (h, merge_from-after prev t tables e)
]

merge_from-NoneContinues :
    (prev : Table) (tables : List Table) → NoneContinues (merge_from prev tables)
unfolding merge_from
merge_from-NoneContinues prev [] = tt
merge_from-NoneContinues prev (t ∷ tables) = elim (Bool-cases (continues prev t)) [
  | inl e ↦ rw e (merge_from-NoneContinues (continued prev t) tables)
  | inr e ↦ rw e (merge_from-after prev t tables e)
]

pub merge-NoneContinues : (tables : List Table) → NoneContinues (merge_continuation_tables tables)
unfolding merge_continuation_tables
merge-NoneContinues [] = tt
merge-NoneContinues (t ∷ tables) = merge_from-NoneContinues t tables
