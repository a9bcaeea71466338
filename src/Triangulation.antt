-- ===== src/Triangulation.antt =====
-- pdf_ingestion/pipeline/triangulation.py: the tables of pdfplumber and camelot are compared cell
-- by cell. Scores are exact fractions.
use smart_pdf_extractor.Prelude.{
  ℕ, zero, suc, ◌+◌, ◌*◌, String, Bool, true, false, not, ◌&&◌, ◌||◌, List, [], ◌∷◌, Text, ltb,
  nat_beq, list_eq, nat_eq, ◌==◌, if◌then◌else◌, length, lower, strip,
}
use smart_pdf_extractor.Segmenter.{Score, less}
pub mod Agreement

-- What both extractors give of a table: texts, and no row where the dict has none.
pub record Table : Type 0 where
  pub table_id : String
  pub headers : List Text
  pub rows : List (List Text)

pub data Verdict : Type 0 where
  agreement soft_flag hard_flag : Verdict

pub data Winner : Type 0 where
  pdfplumber vlm_required : Winner

-- With whether a feedback record is written.
pub record TriangulationResult : Type 0 where
  pub disagreement_score : Score
  pub verdict : Verdict
  pub winner : Winner
  pub feedback_written : Bool

unfoldable pub normalise_cell : Text → Text
normalise_cell value = lower (strip value)

-- `row[c] if c < len(row) else ""`, of the first cell, and the cells behind it.
abbrev pub first_cell : List Text → Text
first_cell [] = []
first_cell (c ∷ cells) = c

abbrev pub other_cells : List Text → List Text
other_cells [] = []
other_cells (c ∷ cells) = cells

-- `similar` is the ratio of difflib against the threshold of 0.90.
module _ (similar : Text → Text → Bool) where
  -- Two empty texts are equal.
  unfoldable pub fuzzy_match : Text → Text → Bool
  fuzzy_match v1 v2 = v1 == v2 || similar v1 v2

  abbrev pub cell_mismatch : Text → Text → ℕ
  cell_mismatch v1 v2 = if fuzzy_match (normalise_cell v1) (normalise_cell v2) then 0 else 1

  -- The loop over the columns, with the number that is left.
  abbrev pub row_mismatches : ℕ → List Text → List Text → ℕ
  row_mismatches zero row1 row2 = 0
  row_mismatches (suc cols) row1 row2 =
      cell_mismatch (first_cell row1) (first_cell row2)
      + row_mismatches cols (other_cells row1) (other_cells row2)

  -- The loop over the rows, of which both tables have as many.
  abbrev pub mismatches : ℕ → List (List Text) → List (List Text) → ℕ
  mismatches cols [] rows2 = 0
  mismatches cols (row1 ∷ rows1) [] = row_mismatches cols row1 [] + mismatches cols rows1 []
  mismatches cols (row1 ∷ rows1) (row2 ∷ rows2) =
      row_mismatches cols row1 row2 + mismatches cols rows1 rows2

  abbrev pub same_shape : Table → Table → Bool
  same_shape t1 t2 =
      nat_beq (length t1.rows + 1) (length t2.rows + 1)
      && nat_beq (length t1.headers) (length t2.headers)

  abbrev pub total_cells : Table → ℕ
  total_cells t = (length t.rows + 1) * length t.headers

  unfoldable pub compute_cell_disagreement : Table → Table → Score
  compute_cell_disagreement t1 t2 =
      if not (same_shape t1 t2) then (1, 1) else if nat_beq (total_cells t1) 0 then (0, 1) else (
        mismatches (length t1.headers) (t1.headers ∷ t1.rows) (t2.headers ∷ t2.rows),
        total_cells t1,
      )

  abbrev pub judged : Score → TriangulationResult
  judged score =
      if less score (10, 100)
      then record {
        disagreement_score = score;
        verdict = agreement;
        winner = pdfplumber;
        feedback_written = false;
      }
      else if less score (40, 100)
      then record {
        disagreement_score = score;
        verdict = soft_flag;
        winner = pdfplumber;
        feedback_written = true;
      }
      else record {
        disagreement_score = score;
        verdict = hard_flag;
        winner = vlm_required;
        feedback_written = true;
      }

  unfoldable pub triangulate_table : Table → Table → TriangulationResult
  unfolding compute_cell_disagreement
  triangulate_table pdfplumber_table camelot_table =
      judged (compute_cell_disagreement pdfplumber_table camelot_table)
