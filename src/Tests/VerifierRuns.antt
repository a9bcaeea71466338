-- ===== src/Tests/VerifierRuns.antt =====
-- A value over two tokens, with exact comparison in place of the fuzzy one.
use smart_pdf_extractor.Prelude.{
  ◌≡◌, refl, Bool, true, false, List, [], ◌∷◌, some, ◌⊎◌, Text, ◌==◌, list_eq, nat_eq, lower, strip,
  lower_char, lstrip, is_space,
}
use smart_pdf_extractor.Assembler.Documents.{Token}
use smart_pdf_extractor.Verifier.{
  normalise_for_comparison, is_empty, rejected, vlm_returned_null, verify_vlm_result, search_tokens,
  search_size, search_sizes, search_token_windows,
}
use smart_pdf_extractor.Verifier.Grounded.{Verdict, verify_vlm_result_lem}

abbrev equal : Text → Text → Bool
equal s t = s == t

abbrev token : Text → Token
token t = record { text = t; bbox = []; confidence = 9000 }

abbrev tokens : List Token
tokens = token (b'J' ∷ b'o' ∷ []) ∷ token (b'L' ∷ b'i' ∷ []) ∷ token (b'7' ∷ []) ∷ []

abbrev value : Text
value = b'j' ∷ b'o' ∷ 32 ∷ b'l' ∷ b'i' ∷ 32 ∷ []

value_verified : (verify_vlm_result equal (some value) "m" tokens).verified ≡ true
unfolding verify_vlm_result search_tokens search_token_windows search_sizes search_size
    normalise_for_comparison lower strip lower_char lstrip is_space
value_verified = refl

verify_vlm_result_lem_example :
    ((is_empty (normalise_for_comparison value) ≡ true)
      × (verify_vlm_result equal (some value) "m" tokens ≡ rejected vlm_returned_null))
    ⊎ ((is_empty (normalise_for_comparison value) ≡ false)
        × Verdict equal
            (normalise_for_comparison value)
            tokens
            (verify_vlm_result equal (some value) "m" tokens))
verify_vlm_result_lem_example = verify_vlm_result_lem equal value "m" tokens
