-- ===== src/Segmenter/Sections.antt =====
-- The sections of a document (segment_document of pdf_ingestion/pipeline/section_segmenter.py)
-- are its pages, cut where the schema changes and nowhere else.
use smart_pdf_extractor.Prelude.{
  ◌≡◌, refl, ap, subst, Bool, true, false, Option, none, some, List, [], ◌∷◌, ◌++◌, arith, Text,
  All, Bool-cases, inl, inr,
}
use mathlib.Core.List.{append_assoc}
use smart_pdf_extractor.Segmenter.{
  PageOutput, DocumentSection, cut_between, close_section, sections_from, segment_document,
}

abbrev pub all_pages : List DocumentSection → List PageOutput
all_pages [] = []
all_pages (s ∷ sections) = s.page_outputs ++ all_pages sections

abbrev pub first : List PageOutput → Option PageOutput
first [] = none
first (p ∷ ps) = some p

abbrev pub last : List PageOutput → Option PageOutput
last [] = none
last (p ∷ []) = some p
last (p ∷ q ∷ ps) = last (q ∷ ps)

module _ (bank_keywords custody_keywords swift_keywords : List Text) where
  abbrev cuts : PageOutput → PageOutput → Bool
  cuts = cut_between bank_keywords custody_keywords swift_keywords

  -- No two neighbours stand at a boundary.
  abbrev pub IsUncut : List PageOutput → Type 0
  IsUncut [] = Unit
  IsUncut (p ∷ []) = Unit
  IsUncut (p ∷ q ∷ ps) =
      (cut_between bank_keywords custody_keywords swift_keywords p q ≡ false) × IsUncut (q ∷ ps)

  abbrev pub cuts_between : Option PageOutput → Option PageOutput → Bool
  cuts_between (some p) (some q) = cut_between bank_keywords custody_keywords swift_keywords p q
  cuts_between _ _ = false

  -- A boundary stands between the sections.
  abbrev pub AreCut : List DocumentSection → Type 0
  AreCut [] = Unit
  AreCut (s ∷ []) = Unit
  AreCut (s ∷ t ∷ sections) =
      (cuts_between (last s.page_outputs) (first t.page_outputs) ≡ true) × AreCut (t ∷ sections)

  pub record IsCutOf (pages : List PageOutput) (sections : List DocumentSection) : Type 0 where
    pub joined : all_pages sections ≡ pages
    pub uncut : All (λ s. IsUncut s.page_outputs) sections
    pub cut : AreCut sections

  last-append : (ps : List PageOutput) (p : PageOutput) → last (ps ++ p ∷ []) ≡ some p
  last-append [] p = refl
  last-append (q ∷ []) p = refl
  last-append (q ∷ r ∷ ps) p = last-append (r ∷ ps) p

  append-IsUncut :
      (ps : List PageOutput) (prev p : PageOutput)
      → IsUncut ps
      → last ps ≡ some prev
      → cuts prev p ≡ false
      → IsUncut (ps ++ p ∷ [])
  append-IsUncut [] prev p u l c = tt
  append-IsUncut (q ∷ []) prev p u l c = (ground (arith, l, c), tt)
  append-IsUncut (q ∷ r ∷ ps) prev p u l c = (u.0, append-IsUncut (r ∷ ps) prev p u.1 l c)

  -- The first page of a list of sections is that of its first section.
  abbrev first_of : List DocumentSection → Option PageOutput
  first_of [] = none
  first_of (s ∷ sections) = first s.page_outputs

  first-append :
      (ps qs : List PageOutput) (p q : PageOutput) → last ps ≡ some p → first (ps ++ qs) ≡ first ps
  first-append [] qs p q h = cc
  first-append (r ∷ ps) qs p q h = refl

  abbrev sections_of : List PageOutput → PageOutput → List PageOutput → List DocumentSection
  sections_of = sections_from bank_keywords custody_keywords swift_keywords

  sections_from-first :
      (current : List PageOutput) (prev : PageOutput) (pages : List PageOutput)
      → last current ≡ some prev
      → first_of (sections_of current prev pages) ≡ first current
  unfolding sections_from close_section
  sections_from-first current prev [] l = refl
  sections_from-first current prev (p ∷ pages) l = ground (
    arith,
    sections_from-first (current ++ p ∷ []) p pages (last-append current p),
    first-append current (p ∷ []) prev p l,
  )

  AreCut-cons :
      (s : DocumentSection) (sections : List DocumentSection)
      → cuts_between (last s.page_outputs) (first_of sections) ≡ true
      → AreCut sections
      → AreCut (s ∷ sections)
  AreCut-cons s [] c h = tt
  AreCut-cons s (t ∷ sections) c h = (c, h)

  sections_from-IsCutOf :
      (current : List PageOutput) (prev : PageOutput) (pages : List PageOutput)
      → last current ≡ some prev
      → IsUncut current
      → IsCutOf (current ++ pages) (sections_of current prev pages)
  unfolding sections_from close_section
  sections_from-IsCutOf current prev [] l u = record { joined = refl; uncut = (u, tt); cut = tt }
  sections_from-IsCutOf current prev (p ∷ pages) l u = elim (Bool-cases (cuts prev p)) [
    | inl e ↦
        let next = sections_from-IsCutOf (p ∷ []) p pages refl tt in
        simp e (record {
          joined = ap (λ ps. current ++ ps) next.joined;
          uncut = (u, next.uncut);
          cut =
              AreCut-cons (close_section bank_keywords custody_keywords swift_keywords current)
                (sections_of (p ∷ []) p pages)
                (ground (arith, l, e, sections_from-first (p ∷ []) p pages refl)) next.cut;
        })
    | inr e ↦
        let same =
          sections_from-IsCutOf (current ++ p ∷ []) p pages (last-append current p)
            (append-IsUncut current prev p u l e) in
        simp e (
          subst (λ ps. IsCutOf ps (sections_of (current ++ p ∷ []) p pages))
            (append_assoc current (p ∷ []) pages) same)
  ]

  -- The sections of a document, joined, are its pages; within a section no two neighbouring pages
  -- stand at a boundary, and between two sections there is one.
  pub segment_document-IsCutOf :
      (pages : List PageOutput)
      → IsCutOf pages (segment_document bank_keywords custody_keywords swift_keywords pages)
  unfolding segment_document
  segment_document-IsCutOf [] = record { joined = refl; uncut = tt; cut = tt }
  segment_document-IsCutOf (p ∷ []) = record { joined = refl; uncut = (tt, tt); cut = tt }
  segment_document-IsCutOf (p ∷ q ∷ pages) = sections_from-IsCutOf (p ∷ []) p (q ∷ pages) refl tt
