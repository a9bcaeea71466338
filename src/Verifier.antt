-- ===== src/Verifier.antt =====
-- The check that a value of the language model stands in the document
-- (pdf_ingestion/pipeline/vlm/verifier.py). `similar a b` stands for the test
-- `SequenceMatcher(None, a, b).ratio() >= fuzzy_threshold` of difflib.
pub mod Infix
pub mod Windows
pub mod Grounded
use smart_pdf_extractor.Prelude.{
  ℕ, zero, suc, ◌+◌, ◌-◌, ℤ, pos, String, Bool, true, false, not, ◌&&◌, ◌||◌, Option, none, some,
  List, [], ◌∷◌, ◌++◌, leb, ltb, nat_beq, min, if◌then◌else◌, length, take, select, Text, is_space,
  strip, lower,
}
use smart_pdf_extractor.Assembler.Documents.{Token}

pub data Reason : Type 0 where
  vlm_returned_null vlm_value_unverifiable : Reason

-- f"bedrock_{model_id}" or "bedrock_window_match"
pub data ExtractionRule : Type 0 where
  bedrock : String → ExtractionRule
  bedrock_window_match : ExtractionRule

pub record Provenance : Type 0 where
  pub page : ℕ
  pub bbox : List ℤ
  pub source : String
  pub extraction_rule : ExtractionRule

pub record VerificationOutcome : Type 0 where
  pub verified : Bool
  pub reason : Option Reason
  pub matched_token : Option Token
  pub provenance : Option Provenance

-- `_normalise_for_comparison`
unfoldable pub normalise_for_comparison : Text → Text
normalise_for_comparison value = lower (strip value)

-- `_collapse_whitespace`
unfoldable pub collapse_whitespace : Text → Text
collapse_whitespace value = select (λ c. not (is_space c)) value

abbrev pub is_empty : Text → Bool
is_empty [] = true
is_empty (c ∷ t) = false

-- `" ".join(texts)`
abbrev pub join_spaced : List Text → Text
join_spaced [] = []
join_spaced (t ∷ []) = t
join_spaced (t ∷ u ∷ texts) = t ++ 32 ∷ join_spaced (u ∷ texts)

abbrev pub normalised_texts : List Token → List Text
normalised_texts [] = []
normalised_texts (t ∷ tokens) = normalise_for_comparison t.text ∷ normalised_texts tokens

abbrev pub window_text : List Token → Text
window_text tokens = join_spaced (normalised_texts tokens)

-- `sub in text`
abbrev pub is_prefix : Text → Text → Bool
is_prefix [] text = true
is_prefix (c ∷ sub) [] = false
is_prefix (c ∷ sub) (d ∷ text) = let rest = is_prefix sub text in nat_beq c d && rest

unfoldable pub is_infix : Text → Text → Bool
is_infix sub [] = is_empty sub
is_infix sub (d ∷ text) = let rest = is_infix sub text in is_prefix sub (d ∷ text) || rest

abbrev pub full_text : List Token → Text
full_text tokens = window_text (select (λ (t : Token). not (is_empty t.text)) tokens)

abbrev pub rejected : Reason → VerificationOutcome
rejected r = record { verified = false; reason = some r; matched_token = none; provenance = none }

abbrev pub accepted : Token → ℕ → ExtractionRule → VerificationOutcome
accepted t page rule = record {
  verified = true;
  reason = none;
  matched_token = some t;
  provenance = some (record { page = page; bbox = t.bbox; source = "vlm"; extraction_rule = rule });
}

abbrev pub accepted_at : List Token → ExtractionRule → VerificationOutcome
accepted_at [] rule = record {
  verified = true;
  reason = none;
  matched_token = none;
  provenance = some (record {
    page = 1;
    bbox = pos 0 ∷ pos 0 ∷ pos 0 ∷ pos 0 ∷ [];
    source = "vlm";
    extraction_rule = rule;
  });
}
accepted_at (t ∷ tokens) rule = accepted t 1 rule

module _ (similar : Text → Text → Bool) where
  -- The first token that matches.
  unfoldable pub search_tokens : Text → List Token → Option Token
  search_tokens value [] = none
  search_tokens value (t ∷ tokens) =
      let later = search_tokens value tokens in
      if is_empty (normalise_for_comparison t.text)
      then later
      else if similar value (normalise_for_comparison t.text)
      then some t
      else later

  -- The loop over `i`: windows of one size.
  unfoldable pub search_size : Text → ℕ → List Token → Option Token
  search_size value size [] = none
  search_size value size (t ∷ tokens) =
      let later = search_size value size tokens in
      if leb size (length (t ∷ tokens))
      then (if similar value (window_text (take size (t ∷ tokens))) then some t else later)
      else none

  abbrev pub first_found : Option Token → Option Token → Option Token
  first_found (some t) later = some t
  first_found none later = later

  -- The loop over the sizes, with the number of sizes that are left.
  unfoldable pub search_sizes : Text → ℕ → ℕ → List Token → Option Token
  search_sizes value zero size tokens = none
  search_sizes value (suc left) size tokens =
      first_found (search_size value size tokens) (search_sizes value left (size + 1) tokens)

  -- `range(2, min(6, len(token_stream) + 1))`
  unfoldable pub search_token_windows : Text → List Token → Option Token
  unfolding search_sizes
  search_token_windows value tokens = search_sizes value (min 6 (length tokens + 1) - 2) 2 tokens

  unfoldable pub stands_in : Text → List Token → Bool
  stands_in value tokens =
      is_infix value (full_text tokens)
      || (not (is_empty (collapse_whitespace value))
          && is_infix (collapse_whitespace value) (collapse_whitespace (full_text tokens)))

  abbrev pub verify_windows : Text → List Token → String → Option Token → VerificationOutcome
  verify_windows value tokens model_id (some t) = accepted t 0 bedrock_window_match
  verify_windows value tokens model_id none =
      if stands_in value tokens
      then accepted_at tokens (bedrock model_id)
      else rejected vlm_value_unverifiable

  abbrev pub verify_tokens : Text → List Token → String → Option Token → VerificationOutcome
  verify_tokens value tokens model_id (some t) = accepted t 0 (bedrock model_id)
  verify_tokens value tokens model_id none =
      verify_windows value tokens model_id (search_token_windows value tokens)

  abbrev pub verify_normalised : Text → List Token → String → VerificationOutcome
  verify_normalised [] tokens model_id = rejected vlm_returned_null
  verify_normalised (c ∷ value) tokens model_id =
      verify_tokens (c ∷ value) tokens model_id (search_tokens (c ∷ value) tokens)

  -- The value and the model of the language model's answer, and the tokens of the document.
  unfoldable pub verify_vlm_result : Option Text → String → List Token → VerificationOutcome
  unfolding search_token_windows search_tokens stands_in
  verify_vlm_result none model_id tokens = rejected vlm_returned_null
  verify_vlm_result (some value) model_id tokens =
      verify_normalised (normalise_for_comparison value) tokens model_id
