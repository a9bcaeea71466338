-- ===== src/Segmenter.antt =====
-- pdf_ingestion/pipeline/section_segmenter.py: a document is cut into sections where the schema of
-- its pages changes. Scores are exact fractions, where the code has floats; the keyword lists are
-- parameters.
use smart_pdf_extractor.Prelude.{
  strip, take, ℕ, zero, suc, ◌+◌, ◌-◌, ◌*◌, Bool, true, false, not, ◌&&◌, ◌||◌, Option, none, some,
  List, [], ◌∷◌, ◌++◌, map, min, max, ltb, nat_beq, if◌then◌else◌, length, Text, lower, is_space,
}
pub mod Sections

-- A block's or a token's text, which may be missing or empty, and the number of tables.
pub record PageOutput : Type 0 where
  pub page_number : ℕ
  pub text_blocks : List Text
  pub tokens : List Text
  pub tables : ℕ

pub data Schema : Type 0 where
  bank_statement custody_statement swift_confirm unknown : Schema

-- A fraction with a denominator that is not 0.
abbrev pub Score : Type 0
Score = ℕ × ℕ

abbrev pub less : Score → Score → Bool
less (a, b) (c, d) = ltb (a * d) (c * b)

abbrev pub plus : Score → Score → Score
plus (a, b) (c, d) = (a * d + c * b, b * d)

abbrev pub larger : Score → Score → Score
larger a b = if less a b then b else a

pub record PageProfile : Type 0 where
  pub page_number : ℕ
  pub bank_score : Score
  pub custody_score : Score
  pub swift_score : Score
  pub dominant_schema : Schema
  pub text_length : ℕ
  pub has_table : Bool
  pub header_signature : Text

pub record DocumentSection : Type 0 where
  pub start_page : ℕ
  pub end_page : ℕ
  pub page_outputs : List PageOutput
  pub dominant_schema : Schema
  pub confidence : Score

abbrev pub is_prefix : Text → Text → Bool
is_prefix [] s = true
is_prefix (c ∷ k) [] = false
is_prefix (c ∷ k) (d ∷ s) = nat_beq c d && is_prefix k s

-- `text.count(keyword)`: matches that do not overlap; the first argument counts the characters of
-- a match that are still to be passed.
abbrev pub count_from : ℕ → Text → Text → ℕ
count_from passing keyword [] = 0
count_from (suc n) keyword (c ∷ s) = count_from n keyword s
count_from zero keyword (c ∷ s) =
    let behind = count_from (length keyword - 1) keyword s in
    let later = count_from 0 keyword s in if is_prefix keyword (c ∷ s) then 1 + behind else later

abbrev pub matches : Text → List Text → ℕ
matches text [] = 0
matches text (k ∷ keywords) = min (count_from 0 k text) 3 + matches text keywords

-- `len(text.split())`, with whether the character before was one of a word.
abbrev pub words_from : Bool → Text → ℕ
words_from inside [] = 0
words_from inside (c ∷ s) =
    let word = words_from true s in
    let gap = words_from false s in if is_space c then gap else if inside then word else 1 + word

-- `matches / (len(keywords) * max(word_count / 100, 1))`
unfoldable pub keyword_score : Text → List Text → ℕ → Score
keyword_score [] keywords word_count = (0, 1)
keyword_score (c ∷ s) keywords word_count =
    if nat_beq word_count 0
    then (0, 1)
    else (matches (c ∷ s) keywords * 100, length keywords * max word_count 100)

abbrev pub is_empty : Text → Bool
is_empty [] = true
is_empty (c ∷ s) = false

abbrev pub nonempty : List Text → List Text
nonempty [] = []
nonempty (t ∷ ts) = let rest = nonempty ts in if is_empty t then rest else t ∷ rest

-- `" ".join(parts)`
abbrev pub join : List Text → Text
join [] = []
join (t ∷ []) = t
join (t ∷ u ∷ ts) = t ++ 32 ∷ join (u ∷ ts)

abbrev pub or_tokens : List Text → List Text → List Text
or_tokens [] tokens = tokens
or_tokens (t ∷ ts) tokens = t ∷ ts

-- `max(scores, key=…)` over the three schemas in their order: the first of the largest.
abbrev pub best : Score → Score → Score → Schema × Score
best bank custody swift =
    if less bank custody
    then (if less custody swift then (swift_confirm, swift) else (custody_statement, custody))
    else (if less bank swift then (swift_confirm, swift) else (bank_statement, bank))

abbrev pub if_above : Score → Schema × Score → Schema
if_above limit (schema, score) = if less limit score then schema else unknown

abbrev pub is_unknown : Schema → Bool
is_unknown unknown = true
is_unknown _ = false

abbrev pub same_schema : Schema → Schema → Bool
same_schema bank_statement bank_statement = true
same_schema custody_statement custody_statement = true
same_schema swift_confirm swift_confirm = true
same_schema unknown unknown = true
same_schema _ _ = false

abbrev pub max_score : PageProfile → Score
max_score p = larger (larger p.bank_score p.custody_score) p.swift_score

-- A cut stands between two known and different schemas, of pages that both score above 0.02.
unfoldable pub is_section_boundary : PageProfile → PageProfile → Bool
is_section_boundary prev curr =
    not (is_unknown prev.dominant_schema || is_unknown curr.dominant_schema)
    && not (same_schema prev.dominant_schema curr.dominant_schema)
    && less (2, 100) (max_score prev)
    && less (2, 100) (max_score curr)

abbrev pub sum_of : (PageProfile → Score) → List PageProfile → Score
sum_of f [] = (0, 1)
sum_of f (p ∷ ps) = plus (f p) (sum_of f ps)

unfoldable pub resolve_section_schema : List PageProfile → Schema
resolve_section_schema [] = unknown
resolve_section_schema (p ∷ ps) =
    if_above (1, 100)
      (best (sum_of (λ q. q.bank_score) (p ∷ ps)) (sum_of (λ q. q.custody_score) (p ∷ ps))
        (sum_of (λ q. q.swift_score) (p ∷ ps)))

abbrev pub mean_of : (PageProfile → Score) → List PageProfile → Score
mean_of f ps = let total = sum_of f ps in (total.0, total.1 * length ps)

unfoldable pub section_confidence : List PageProfile → Schema → Score
section_confidence [] schema = (0, 1)
section_confidence (p ∷ ps) unknown = (0, 1)
section_confidence (p ∷ ps) bank_statement = mean_of (λ q. q.bank_score) (p ∷ ps)
section_confidence (p ∷ ps) custody_statement = mean_of (λ q. q.custody_score) (p ∷ ps)
section_confidence (p ∷ ps) swift_confirm = mean_of (λ q. q.swift_score) (p ∷ ps)

-- The page numbers of the first and of the last page.
abbrev pub last_number : PageOutput → List PageOutput → ℕ
last_number p [] = p.page_number
last_number p (q ∷ ps) = last_number q ps

abbrev pub page_range : List PageOutput → ℕ × ℕ
page_range [] = (0, 0)
page_range (p ∷ ps) = (p.page_number, last_number p ps)

module _ (bank_keywords custody_keywords swift_keywords : List Text) where
  unfoldable pub compute_page_profile : PageOutput → PageProfile
  unfolding keyword_score
  compute_page_profile page =
      let full_text = lower (join (or_tokens (nonempty page.text_blocks) page.tokens)) in
      let word_count = max (words_from false full_text) 1 in
      let bank = keyword_score full_text bank_keywords word_count in
      let custody = keyword_score full_text custody_keywords word_count in
      let swift = keyword_score full_text swift_keywords word_count in
      record {
        page_number = page.page_number;
        bank_score = bank;
        custody_score = custody;
        swift_score = swift;
        dominant_schema = if_above (5, 1000) (best bank custody swift);
        text_length = length full_text;
        has_table = ltb 0 page.tables;
        header_signature = strip (take 200 full_text);
      }

  -- The section of these consecutive pages.
  unfoldable pub close_section : List PageOutput → DocumentSection
  unfolding compute_page_profile resolve_section_schema section_confidence
  close_section pages =
      let profiles = map compute_page_profile pages in
      let schema = resolve_section_schema profiles in
      record {
        start_page = (page_range pages).0;
        end_page = (page_range pages).1;
        page_outputs = pages;
        dominant_schema = schema;
        confidence = section_confidence profiles schema;
      }

  abbrev pub cut_between : PageOutput → PageOutput → Bool
  cut_between prev curr =
      is_section_boundary (compute_page_profile prev) (compute_page_profile curr)

  -- The loop, with the pages of the current section and the last of them.
  unfoldable pub sections_from :
      List PageOutput → PageOutput → List PageOutput → List DocumentSection
  sections_from current prev [] = close_section current ∷ []
  sections_from current prev (p ∷ pages) =
      let next = sections_from (p ∷ []) p pages in
      let same = sections_from (current ++ p ∷ []) p pages in
      if cut_between prev p then close_section current ∷ next else same

  -- One page is a section by its own profile.
  unfoldable pub segment_document : List PageOutput → List DocumentSection
  segment_document [] = []
  segment_document (p ∷ []) =
      let profile = compute_page_profile p in
      record {
        start_page = p.page_number;
        end_page = p.page_number;
        page_outputs = p ∷ [];
        dominant_schema = profile.dominant_schema;
        confidence = max_score profile;
      }
      ∷ []
  segment_document (p ∷ q ∷ pages) = sections_from (p ∷ []) p (q ∷ pages)
