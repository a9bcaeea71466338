-- ===== src/Triangulation/Agreement.antt =====
-- When the two extractors agree on a table (triangulate_table of
-- pdf_ingestion/pipeline/triangulation.py).
use smart_pdf_extractor.Prelude.{
  ℕ, zero, suc, ◌+◌, ◌*◌, ◌≤◌, ◌<◌, ◌≡◌, ◌↔◌, refl, ap, ◌∙◌, Bool, true, none, some, List, [], ◌∷◌,
  Text, list_eq, nat_eq, ==_iff, length, arith, ◌⊎◌, get_elem?, lower, strip, if◌then◌else◌, ◌==◌,
  nat_beq_iff,
}
use smart_pdf_extractor.Triangulation.{
  Table, Verdict, agreement, soft_flag, hard_flag, normalise_cell, first_cell, other_cells,
  fuzzy_match, cell_mismatch, row_mismatches, mismatches, same_shape, compute_cell_disagreement,
  triangulate_table,
}

sum_eq : {a b c d : ℕ} → a ≡ c → b ≡ d → a + b ≡ c + d
sum_eq p q = omega (arith, p, q)

module _ (similar : Text → Text → Bool) where
  cell_mismatch_self : (v : Text) → cell_mismatch similar v v ≡ 0
  unfolding fuzzy_match
  cell_mismatch_self v = ground (arith, ==_iff (normalise_cell v) (normalise_cell v))

  row_mismatches_self : (cols : ℕ) (row : List Text) → row_mismatches similar cols row row ≡ 0
  row_mismatches_self zero row = refl
  row_mismatches_self (suc cols) row =
      omega (arith, cell_mismatch_self (first_cell row), row_mismatches_self cols (other_cells row))

  mismatches_self : (cols : ℕ) (rows : List (List Text)) → mismatches similar cols rows rows ≡ 0
  mismatches_self cols [] = refl
  mismatches_self cols (row ∷ rows) =
      omega (arith, row_mismatches_self cols row, mismatches_self cols rows)

  cell_mismatch-le : (v w : Text) → cell_mismatch similar v w ≤ 1
  cell_mismatch-le v w = ground arith

  row_mismatches-le :
      (cols : ℕ) (row1 row2 : List Text) → row_mismatches similar cols row1 row2 ≤ cols
  row_mismatches-le zero row1 row2 = omega arith
  row_mismatches-le (suc cols) row1 row2 = omega (
    arith,
    cell_mismatch-le (first_cell row1) (first_cell row2),
    row_mismatches-le cols (other_cells row1) (other_cells row2),
  )

  mismatches-le :
      (cols : ℕ) (rows1 rows2 : List (List Text))
      → mismatches similar cols rows1 rows2 ≤ length rows1 * cols
  mismatches-le cols [] rows2 = omega arith
  mismatches-le cols (row1 ∷ rows1) [] =
      grind (arith, row_mismatches-le cols row1 [], mismatches-le cols rows1 [])
  mismatches-le cols (row1 ∷ rows1) (row2 ∷ rows2) =
      grind (arith, row_mismatches-le cols row1 row2, mismatches-le cols rows1 rows2)

  -- The cell at a row and a column, and an empty text where there is none.
  abbrev pub cell_in : List Text → ℕ → Text
  cell_in row c = elim (get_elem? row c) [ none ↦ [] | some cell ↦ cell ]

  abbrev pub cell_at : List (List Text) → ℕ → ℕ → Text
  cell_at rows r c = elim (get_elem? rows r) [ none ↦ [] | some row ↦ cell_in row c ]

  -- The sum of the first `n` values.
  abbrev pub sum_to : ℕ → (ℕ → ℕ) → ℕ
  sum_to zero f = 0
  sum_to (suc n) f = f 0 + sum_to n (λ i. f (suc i))

  -- One where two texts, stripped and in lower case, are neither equal nor similar.
  abbrev pub differs : Text → Text → ℕ
  differs v w =
      let v' = lower (strip v) in
      let w' = lower (strip w) in if v' == w' then 0 else if similar v' w' then 0 else 1

  -- The places, by row and column, where the texts of two tables differ. The headers are row 0.
  abbrev pub differing : Table → Table → ℕ
  differing t1 t2 = sum_to (length t1.rows + 1) (λ r.
      sum_to (length t1.headers)
        (λ c. differs (cell_at (t1.headers ∷ t1.rows) r c) (cell_at (t2.headers ∷ t2.rows) r c)))

  sum_to-cong : (n : ℕ) (f g : ℕ → ℕ) → ((i : ℕ) → f i ≡ g i) → sum_to n f ≡ sum_to n g
  sum_to-cong n f g h = λ k. sum_to n (λ i. h i k)

  cell_mismatch-differs : (v w : Text) → cell_mismatch similar v w ≡ differs v w
  unfolding fuzzy_match normalise_cell
  cell_mismatch-differs v w = ground arith

  first_cell_lem : (row : List Text) → first_cell row ≡ cell_in row 0
  first_cell_lem [] = refl
  first_cell_lem (c ∷ row) = refl

  other_cells_lem : (row : List Text) (c : ℕ) → cell_in (other_cells row) c ≡ cell_in row (suc c)
  other_cells_lem [] c = refl
  other_cells_lem (x ∷ row) c = refl

  row_mismatches-sum :
      (cols : ℕ) (row1 row2 : List Text)
      → row_mismatches similar cols row1 row2
        ≡ sum_to cols (λ c. differs (cell_in row1 c) (cell_in row2 c))
  row_mismatches-sum zero row1 row2 = refl
  row_mismatches-sum (suc cols) row1 row2 =
      let first : cell_mismatch similar (first_cell row1) (first_cell row2)
          ≡ differs (cell_in row1 0) (cell_in row2 0) =
        rw (first_cell_lem row1, first_cell_lem row2)
          (cell_mismatch-differs (cell_in row1 0) (cell_in row2 0)) in
      let others = row_mismatches-sum cols (other_cells row1) (other_cells row2) in
      let shifted =
        sum_to-cong cols
          (λ c. differs (cell_in (other_cells row1) c) (cell_in (other_cells row2) c))
          (λ c. differs (cell_in row1 (suc c)) (cell_in row2 (suc c)))
          (λ c.
            ap (λ v. differs v (cell_in (other_cells row2) c)) (other_cells_lem row1 c)
            ∙ ap (differs (cell_in row1 (suc c))) (other_cells_lem row2 c)) in
      sum_eq first (others ∙ shifted)

  mismatches-sum :
      (cols : ℕ) (rows1 rows2 : List (List Text))
      → mismatches similar cols rows1 rows2
        ≡ sum_to
            (length rows1)
            (λ r. sum_to cols (λ c. differs (cell_at rows1 r c) (cell_at rows2 r c)))
  mismatches-sum cols [] rows2 = refl
  mismatches-sum cols (row1 ∷ rows1) [] =
      sum_eq (row_mismatches-sum cols row1 []) (mismatches-sum cols rows1 [])
  mismatches-sum cols (row1 ∷ rows1) (row2 ∷ rows2) =
      sum_eq (row_mismatches-sum cols row1 row2) (mismatches-sum cols rows1 rows2)

  -- As many rows, and as many headers.
  abbrev pub SameShape : Table → Table → Type 0
  SameShape t1 t2 = (length t1.rows ≡ length t2.rows) × (length t1.headers ≡ length t2.headers)

  abbrev pub cells : Table → ℕ
  cells t = (length t.rows + 1) * length t.headers

  abbrev pub IsVerdict : Table → Table → Verdict → Type 0
  IsVerdict t1 t2 agreement =
      SameShape t1 t2 × ((length t1.headers ≡ 0) ⊎ (10 * differing t1 t2 < cells t1))
  IsVerdict t1 t2 soft_flag =
      SameShape t1 t2
      × (0 < length t1.headers)
      × (cells t1 ≤ 10 * differing t1 t2)
      × (10 * differing t1 t2 < 4 * cells t1)
  IsVerdict t1 t2 hard_flag =
      (¬ SameShape t1 t2) ⊎ ((0 < length t1.headers) × (4 * cells t1 ≤ 10 * differing t1 t2))

  cells-eq-zero : (t : Table) → (cells t ≡ 0) ↔ (length t.headers ≡ 0)
  cells-eq-zero t = grind arith

  same_shape_iff : (t1 t2 : Table) → (same_shape similar t1 t2 ≡ true) ↔ SameShape t1 t2
  same_shape_iff t1 t2 = ground (
    arith,
    nat_beq_iff (length t1.rows + 1) (length t2.rows + 1),
    nat_beq_iff (length t1.headers) (length t2.headers),
  )

  -- The verdict on two tables. They agree if they have as many rows and as many headers, and no
  -- headers or fewer than a tenth of their places differ, header places included: the texts there,
  -- stripped and in lower case, are neither equal nor similar, where a row that is too short has
  -- empty texts. It is a soft flag if they have the same shape, some headers, and at least a tenth
  -- but fewer than four tenths of the places differ. It is a hard flag if their shapes differ, or
  -- they have headers and at least four tenths of the places differ.
  pub triangulate_table_iff :
      (t1 t2 : Table) (v : Verdict)
      → ((triangulate_table similar t1 t2).verdict ≡ v) ↔ IsVerdict t1 t2 v
  unfolding triangulate_table compute_cell_disagreement
  triangulate_table_iff t1 t2 agreement = ground (
    arith,
    same_shape_iff t1 t2,
    cells-eq-zero t1,
    mismatches-sum (length t1.headers) (t1.headers ∷ t1.rows) (t2.headers ∷ t2.rows),
  )
  triangulate_table_iff t1 t2 soft_flag = ground (
    arith,
    same_shape_iff t1 t2,
    cells-eq-zero t1,
    mismatches-sum (length t1.headers) (t1.headers ∷ t1.rows) (t2.headers ∷ t2.rows),
  )
  triangulate_table_iff t1 t2 hard_flag = ground (
    arith,
    same_shape_iff t1 t2,
    cells-eq-zero t1,
    mismatches-sum (length t1.headers) (t1.headers ∷ t1.rows) (t2.headers ∷ t2.rows),
  )

  -- The score is a fraction of 0 to 1, and it is 0 for a table and itself.
  pub compute_cell_disagreement_lem :
      (t1 t2 : Table)
      → let (m, n) = compute_cell_disagreement similar t1 t2 in
        (m ≤ n) × (0 < n) × ((compute_cell_disagreement similar t1 t1).0 ≡ 0)
  unfolding compute_cell_disagreement
  compute_cell_disagreement_lem t1 t2 = ground (
    arith,
    mismatches-le (length t1.headers) (t1.headers ∷ t1.rows) (t2.headers ∷ t2.rows),
    mismatches_self (length t1.headers) (t1.headers ∷ t1.rows),
  )
