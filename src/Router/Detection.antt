-- ===== src/Router/Detection.antt =====
-- detect_schema of pdf_ingestion/pipeline/schemas/router.py and detect_theme of themes.py, with
-- their float arithmetic.
use smart_pdf_extractor.Prelude.{
  ℕ, zero, suc, max, String, Bool, false, ◌&&◌, Option, none, some, List, [], ◌∷◌, map, take, ltb,
  leb, if◌then◌else◌, length, count_if, Text, lower, codes,
}
use smart_pdf_extractor.Assembler.Documents.{AssembledDocument}
use smart_pdf_extractor.Segmenter.{
  Schema, bank_statement, custody_statement, swift_confirm, unknown, count_from, matches,
  words_from, join, nonempty, or_tokens,
}
use smart_pdf_extractor.Router.Floats.{
  Float, quotient, exact, f_less, f_add, f_sub, f_mul, f_div, f_max, f_min,
}
use smart_pdf_extractor.Router.Keywords.{
  bank_statement_keywords, custody_statement_keywords, swift_confirm_keywords,
  bank_statement_negative_keywords, custody_statement_negative_keywords,
  swift_confirm_negative_keywords, themes,
}

-- The parts of _build_full_text, and of detect_theme.
abbrev pub text_parts : AssembledDocument → List Text
text_parts doc =
    or_tokens (nonempty (map (λ b. b.text) doc.blocks)) (map (λ t. t.text) doc.token_stream)

unfoldable pub build_full_text : AssembledDocument → Text
build_full_text doc = join (text_parts doc)

-- `keyword in text`
abbrev pub occurs : Text → Text → Bool
occurs text keyword = ltb 0 (count_from 0 keyword text)

-- `matches / (len(keywords) * max(word_count / 100, 1))`
unfoldable pub compute_keyword_score : Text → List Text → ℕ → Float
compute_keyword_score text keywords word_count =
    if ltb word_count 101
    then quotient (matches text keywords) (length keywords)
    else f_div (exact (matches text keywords))
        (f_mul (exact (length keywords)) (quotient word_count 100))

-- `score -= 0.01`, as often; what falls below 0 stays there and is 0 in the end.
abbrev pub minus_penalties : ℕ → Float → Float
minus_penalties zero score = score
minus_penalties (suc n) score = minus_penalties n (f_sub score (quotient 1 100))

unfoldable pub apply_negative_penalty : Text → Float → List Text → Float
apply_negative_penalty text score keywords = minus_penalties (count_if (occurs text) keywords) score

unfoldable pub has_swift_structure : Text → Bool
has_swift_structure text =
    leb 2 (count_if (occurs text) (codes "{1:" ∷ codes "{4:" ∷ codes ":20:" ∷ codes ":16R:" ∷ []))

-- The scores of a text in lower case and its number of words.
abbrev pub swift_score : Text → ℕ → Float
swift_score text w =
    let density = compute_keyword_score text swift_confirm_keywords w in
    apply_negative_penalty text
      (if has_swift_structure text then f_add density (quotient 1 10) else density)
      swift_confirm_negative_keywords

abbrev pub bank_score : Text → ℕ → Float
bank_score text w =
    apply_negative_penalty text (compute_keyword_score text bank_statement_keywords w)
      bank_statement_negative_keywords

abbrev pub custody_score : Text → ℕ → Float
custody_score text w =
    apply_negative_penalty text (compute_keyword_score text custody_statement_keywords w)
      custody_statement_negative_keywords

-- `max(scores, key=…)`: the first of the largest.
abbrev pub best_type : Float → Float → Float → Schema
best_type swift bank custody =
    if f_less swift bank
    then (if f_less bank custody then custody_statement else bank_statement)
    else if f_less swift custody
    then custody_statement
    else swift_confirm

-- `sorted_scores[1]` of three scores.
abbrev pub second_best_score : Float → Float → Float → Float
second_best_score swift bank custody = f_max (f_min swift bank) (f_min (f_max swift bank) custody)

-- The threshold of density, 0.035, and the gap of confidence.
unfoldable pub decide : Float → Float → Float → Schema
decide swift bank custody =
    let best = f_max swift (f_max bank custody) in
    let second = second_best_score swift bank custody in
    if f_less best (quotient 35 1000)
    then unknown
    else if f_less (exact 0) second && f_less best (f_mul (quotient 15 10) second)
    then unknown
    else best_type swift bank custody

abbrev pub words : Text → ℕ
words text = max (words_from false text) 1

unfoldable pub detect_schema : AssembledDocument → Schema
unfolding decide build_full_text
detect_schema doc =
    let text = lower (build_full_text doc) in
    let w = words text in decide (swift_score text w) (bank_score text w) (custody_score text w)

-- The theme with the highest density.
abbrev pub best_theme :
    Text → List (String × List Text) → Option String → Float → Option String × Float
best_theme text [] best_id best_score = (best_id, best_score)
best_theme text ((id, keywords) ∷ rest) best_id best_score =
    let score = compute_keyword_score text keywords (words text) in
    let replaced = best_theme text rest (some id) score in
    let kept = best_theme text rest best_id best_score in
    if f_less best_score score then replaced else kept

-- The threshold of density is 0.02.
abbrev pub above_density : Option String × Float → Option String
above_density (best_id, best_score) = if f_less best_score (quotient 2 100) then none else best_id

abbrev pub theme_of : Text → Option String
theme_of [] = none
theme_of (c ∷ text) = above_density (best_theme (c ∷ text) themes none (exact 0))

-- The first 600 parts are read.
unfoldable pub detect_theme : AssembledDocument → Option String
detect_theme doc = theme_of (lower (join (take 600 (text_parts doc))))
