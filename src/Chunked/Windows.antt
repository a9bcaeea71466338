-- ===== src/Chunked/Windows.antt =====
-- The choice of a tier and the sliding windows of pdf_ingestion/pipeline/vlm/chunked_extractor.py.
use smart_pdf_extractor.Prelude.{
  ℕ, zero, suc, ◌+◌, ◌-◌, ◌*◌, ◌/◌, String, ◌==◌, string_eq, Bool, true, false, not, ◌&&◌, List, [],
  ◌∷◌, min, ltb, leb, if◌then◌else◌, any, take, drop, length,
}

pub record PageWindow : Type 0 where
  pub start_page : ℕ
  pub end_page : ℕ
  pub target_fields : List String
  pub page_texts : List String

abbrev pub num_pages : PageWindow → ℕ
num_pages w = (w.end_page + 1) - w.start_page

pub record WindowConfig : Type 0 where
  pub window_size : ℕ
  pub overlap : ℕ
  pub max_concurrent : ℕ

abbrev pub header_fields : List String
header_fields =
    "institution" ∷ "client_name" ∷ "statement_date" ∷ "period_from" ∷ "period_to"
    ∷ "account_number" ∷ "iban" ∷ "opening_balance" ∷ "closing_balance" ∷ "currency" ∷ []

abbrev pub is_subset : List String → List String → Bool
is_subset [] ys = true
is_subset (x ∷ xs) ys = any (λ y. y == x) ys && is_subset xs ys

abbrev pub is_empty {ℓ} : {A : Type ℓ} → List A → Bool
is_empty [] = true
is_empty (x ∷ xs) = false

-- The tokens of the joined pages and those of the model's context come from the model's client. The
-- threshold of 80% is computed exactly here, not on floats.
unfoldable pub select_extraction_tier : ℕ → ℕ → List String → String
select_extraction_tier estimated_tokens max_tokens abstained_fields =
    if leb estimated_tokens (max_tokens * 4 / 5)
    then "single"
    else if not (is_empty abstained_fields) && is_subset abstained_fields header_fields
    then "tier1"
    else "tier2"

-- How far the windows advance: at least one page.
abbrev pub step_of : WindowConfig → ℕ
step_of config =
    if leb config.window_size config.overlap then 1 else config.window_size - config.overlap

-- The window that starts behind this many pages.
abbrev pub window_at : WindowConfig → List String → ℕ → PageWindow
window_at config pages start =
    let stop = min (start + config.window_size) (length pages) in
    record {
      start_page = start + 1;
      end_page = stop;
      target_fields = [];
      page_texts = take (stop - start) (drop start pages);
    }

-- The while loop, on fuel.
unfoldable pub sliding : ℕ → WindowConfig → List String → ℕ → List PageWindow
sliding zero config pages start = []
sliding (suc fuel) config pages start =
    let rest = sliding fuel config pages (start + step_of config) in
    if ltb start (length pages)
    then (if leb (length pages) (start + config.window_size)
        then window_at config pages start ∷ []
        else window_at config pages start ∷ rest)
    else []

-- A round starts at least one page further, so that as many rounds as there are pages are enough.
unfoldable pub create_sliding_windows : List String → WindowConfig → List PageWindow
create_sliding_windows pages config = sliding (length pages) config pages 0
