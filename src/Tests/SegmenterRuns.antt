-- ===== src/Tests/SegmenterRuns.antt =====
-- A bank statement with a blank page and a custody statement behind it, and the theorem at them.
use smart_pdf_extractor.Prelude.{
  ℕ, ◌≡◌, refl, List, [], ◌∷◌, map, Text, lower, lower_char, is_space,
}
use smart_pdf_extractor.Segmenter.{
  PageOutput, segment_document, sections_from, close_section, compute_page_profile, keyword_score,
  is_section_boundary, resolve_section_schema, section_confidence,
}
use smart_pdf_extractor.Segmenter.Sections.{IsCutOf, segment_document-IsCutOf}

-- "bank"
abbrev bank : Text
bank = b'b' ∷ b'a' ∷ b'n' ∷ b'k' ∷ []

-- "fund"
abbrev fund : Text
fund = b'f' ∷ b'u' ∷ b'n' ∷ b'd' ∷ []

-- "fax"
abbrev fax : Text
fax = b'f' ∷ b'a' ∷ b'x' ∷ []

abbrev page : ℕ → List Text → PageOutput
page n texts = record { page_number = n; text_blocks = texts; tokens = []; tables = 0 }

abbrev document : List PageOutput
document = page 1 (bank ∷ bank ∷ []) ∷ page 2 [] ∷ page 3 (bank ∷ []) ∷ page 4 (fund ∷ []) ∷ []

-- The last page is a section of its own.
ends :
    map (λ s. s.end_page) (segment_document (bank ∷ []) (fund ∷ []) (fax ∷ []) document)
    ≡ 3 ∷ 4 ∷ []
unfolding segment_document sections_from close_section compute_page_profile keyword_score
    is_section_boundary resolve_section_schema section_confidence lower lower_char is_space
ends = refl

segment_document-IsCutOf_example :
    IsCutOf
      (bank ∷ [])
      (fund ∷ [])
      (fax ∷ [])
      document
      (segment_document (bank ∷ []) (fund ∷ []) (fax ∷ []) document)
segment_document-IsCutOf_example =
    segment_document-IsCutOf (bank ∷ []) (fund ∷ []) (fax ∷ []) document
