-- ===== src/Verifier/Infix.antt =====
-- `sub in text` in terms of what stands before and behind (for
-- pdf_ingestion/pipeline/vlm/verifier.py).
use smart_pdf_extractor.Prelude.{
  ◌≡◌, refl, ap, ◌↔◌, true, [], ◌∷◌, ◌++◌, Text, nat_beq_iff, Bool-cases, inl, inr, arith,
}
use smart_pdf_extractor.Verifier.{is_prefix, is_infix}

-- The text is some text, the part, and some text.
abbrev pub StandsIn : Text → Text → Type 0
StandsIn sub text = (before behind : Text) × (text ≡ before ++ (sub ++ behind))

is_prefix-true :
    (sub text : Text) → is_prefix sub text ≡ true → (behind : Text) × (text ≡ sub ++ behind)
is_prefix-true [] text h = (text, refl)
is_prefix-true (c ∷ sub) [] h = cc
is_prefix-true (c ∷ sub) (d ∷ text) h =
    let same : c ≡ d = ground (arith, h, nat_beq_iff c d) in
    let (behind, e) = is_prefix-true sub text (ground (arith, h)) in (behind, cc)

is_prefix-append : (sub behind : Text) → is_prefix sub (sub ++ behind) ≡ true
is_prefix-append [] behind = refl
is_prefix-append (c ∷ sub) behind = ground (arith, is_prefix-append sub behind)

pub is_infix-StandsIn : (sub text : Text) → is_infix sub text ≡ true → StandsIn sub text
unfolding is_infix
is_infix-StandsIn [] [] h = ([], [], refl)
is_infix-StandsIn (c ∷ sub) [] h = cc
is_infix-StandsIn sub (d ∷ text) h = elim (Bool-cases (is_prefix sub (d ∷ text))) [
  | inl e ↦ let (behind, p) = is_prefix-true sub (d ∷ text) e in ([], behind, p)
  | inr e ↦
      let (before, behind, p) = is_infix-StandsIn sub text (ground (arith, h, e)) in
      (d ∷ before, behind, ap (λ t. d ∷ t) p)
]

is_infix_middle : (before sub behind : Text) → is_infix sub (before ++ (sub ++ behind)) ≡ true
unfolding is_infix
is_infix_middle [] [] [] = refl
is_infix_middle [] [] (d ∷ behind) = refl
is_infix_middle [] (c ∷ sub) behind = ground (arith, is_prefix-append (c ∷ sub) behind)
is_infix_middle (d ∷ before) sub behind = ground (arith, is_infix_middle before sub behind)

pub is_infix_iff : (sub text : Text) → (is_infix sub text ≡ true) ↔ StandsIn sub text
is_infix_iff sub text = (is_infix-StandsIn sub text, λ s. rw s.2 (is_infix_middle s.0 sub s.1))
