-- ===== src/Verifier/Grounded.antt =====
-- A value is verified exactly when the document holds it
-- (pdf_ingestion/pipeline/vlm/verifier.py).
use smart_pdf_extractor.Prelude.{
  ◌≡◌, refl, String, Bool, true, false, none, some, List, [], ◌∷◌, Text, arith, Bool-cases,
  Option-cases, ◌⊎◌, inl, inr,
}
use smart_pdf_extractor.Assembler.Documents.{Token}
use smart_pdf_extractor.Verifier.{
  normalise_for_comparison, collapse_whitespace, is_empty, full_text, is_infix, search_tokens,
  search_token_windows, stands_in, verify_tokens, verify_normalised, verify_vlm_result,
  VerificationOutcome, accepted_at, bedrock, rejected, vlm_returned_null, vlm_value_unverifiable,
}
use smart_pdf_extractor.Verifier.Infix.{StandsIn, is_infix_iff}
use smart_pdf_extractor.Verifier.Windows.{
  MatchesToken, MatchesRow, search_tokens-found, search_tokens-finds, windows-found, windows-finds,
}

module _ (similar : Text → Text → Bool) (value : Text) where
  -- The value, or the value without its white space, stands in the text of the document.
  abbrev pub StandsInText : List Token → Type 0
  StandsInText tokens =
      StandsIn value (full_text tokens)
      ⊎ ((is_empty (collapse_whitespace value) ≡ false)
          × StandsIn (collapse_whitespace value) (collapse_whitespace (full_text tokens)))

  stands_in-found :
      (tokens : List Token) → stands_in similar value tokens ≡ true → StandsInText tokens
  unfolding stands_in
  stands_in-found tokens h = elim (Bool-cases (is_infix value (full_text tokens))) [
    | inl e ↦ inl ((is_infix_iff value (full_text tokens)).0 e)
    | inr e ↦ inr (
      ground (arith, h, e),
      (is_infix_iff (collapse_whitespace value) (collapse_whitespace (full_text tokens))).0
          (ground (arith, h, e)),
    )
  ]

  stands_in-finds :
      (tokens : List Token) → StandsInText tokens → stands_in similar value tokens ≡ true
  unfolding stands_in
  stands_in-finds tokens (inl s) = ground (arith, (is_infix_iff value (full_text tokens)).1 s)
  stands_in-finds tokens (inr (e, s)) = ground (
    arith,
    e,
    (is_infix_iff (collapse_whitespace value) (collapse_whitespace (full_text tokens))).1 s,
  )

  abbrev pub IsGrounded : List Token → Type 0
  IsGrounded tokens =
      MatchesToken similar value tokens ⊎ MatchesRow similar value tokens ⊎ StandsInText tokens

  accepted_at-verified :
      (model_id : String) (tokens : List Token)
      → (accepted_at tokens (bedrock model_id)).verified ≡ true
  accepted_at-verified model_id [] = refl
  accepted_at-verified model_id (t ∷ tokens) = refl

  nowhere :
      (tokens : List Token)
      → search_tokens similar value tokens ≡ none
      → search_token_windows similar value tokens ≡ none
      → stands_in similar value tokens ≡ false
      → ¬ IsGrounded tokens
  nowhere tokens e f i (inl m) = ground (arith, e, search_tokens-finds similar value tokens m)
  nowhere tokens e f i (inr (inl m)) = ground (arith, f, windows-finds similar value tokens m)
  nowhere tokens e f i (inr (inr m)) = ground (arith, i, stands_in-finds tokens m)

  -- Found and accepted, or not found and rejected.
  abbrev pub Verdict : List Token → VerificationOutcome → Type 0
  Verdict tokens outcome =
      (IsGrounded tokens × (outcome.verified ≡ true))
      ⊎ ((¬ IsGrounded tokens) × (outcome ≡ rejected vlm_value_unverifiable))

  verify_tokens-Verdict :
      (model_id : String) (tokens : List Token)
      → Verdict tokens
          (verify_tokens similar value tokens model_id (search_tokens similar value tokens))
  verify_tokens-Verdict model_id tokens = elim (Option-cases (search_tokens similar value tokens)) [
    | inr (t, e) ↦ rw e (inl (inl (search_tokens-found similar value tokens (rw e refl)), refl))
    | inl e ↦ elim (Option-cases (search_token_windows similar value tokens)) [
      | inr (t, f) ↦
          rw (e, f) (inl (inr (inl (windows-found similar value tokens (rw f refl))), refl))
      | inl f ↦ elim (Bool-cases (stands_in similar value tokens)) [
        | inl i ↦
            rw (e, f, i)
              (inl (inr (inr (stands_in-found tokens i)), accepted_at-verified model_id tokens))
        | inr i ↦ rw (e, f, i) (inr (nowhere tokens e f i, refl))
      ]
    ]
  ]

module _ (similar : Text → Text → Bool) where
  verify_normalised-Verdict :
      (value : Text) (model_id : String) (tokens : List Token)
      → is_empty value ≡ false
      → Verdict similar value tokens (verify_normalised similar value tokens model_id)
  verify_normalised-Verdict [] model_id tokens h = cc
  verify_normalised-Verdict (c ∷ value) model_id tokens h =
      verify_tokens-Verdict similar (c ∷ value) model_id tokens

  verify_normalised-null :
      (value : Text) (model_id : String) (tokens : List Token)
      → is_empty value ≡ true
      → verify_normalised similar value tokens model_id ≡ rejected vlm_returned_null
  verify_normalised-null [] model_id tokens h = refl
  verify_normalised-null (c ∷ value) model_id tokens h = cc

  -- A value is rejected as null when it has no text. Otherwise it is verified exactly when the
  -- document holds it: some token is similar to it, or some two to five tokens in a row are, or it
  -- stands in the text of the tokens, perhaps but for white space; and it is rejected as
  -- unverifiable if not.
  pub verify_vlm_result_lem :
      (value : Text) (model_id : String) (tokens : List Token)
      → let outcome = verify_vlm_result similar (some value) model_id tokens in
        let text = normalise_for_comparison value in
        ((is_empty text ≡ true) × (outcome ≡ rejected vlm_returned_null))
        ⊎ ((is_empty text ≡ false) × Verdict similar text tokens outcome)
  unfolding verify_vlm_result
  verify_vlm_result_lem value model_id tokens =
      elim (Bool-cases (is_empty (normalise_for_comparison value))) [
        | inl e ↦ inl (e, verify_normalised-null (normalise_for_comparison value) model_id tokens e)
        | inr e ↦
            inr (e, verify_normalised-Verdict (normalise_for_comparison value) model_id tokens e)
      ]
