-- ===== src/Verifier/Windows.antt =====
-- What the searches of tokens and of windows of tokens find
-- (pdf_ingestion/pipeline/vlm/verifier.py).
use smart_pdf_extractor.Prelude.{
  ℕ, zero, suc, ◌+◌, ◌-◌, ◌<◌, ◌≤◌, ◌≡◌, refl, ap, sym, ◌∙◌, Bool, true, false, none, List, [], ◌∷◌,
  ◌++◌, leb, leb→le, min, length, length-append, take, Text, Some, is_some, arith, Bool-cases,
  Option-cases, inl, inr,
}
use smart_pdf_extractor.Assembler.Documents.{Token}
use smart_pdf_extractor.Verifier.{
  normalise_for_comparison, is_empty, window_text, search_tokens, search_size, search_sizes,
  search_token_windows,
}

take-append : {A : Type 0} (xs ys : List A) → take (length xs) (xs ++ ys) ≡ xs
take-append [] ys = refl
take-append (x ∷ xs) ys = ap (λ zs. x ∷ zs) (take-append xs ys)

module _ (similar : Text → Text → Bool) (value : Text) where
  abbrev pub MatchesToken : List Token → Type 0
  MatchesToken = Some (λ t.
      (is_empty (normalise_for_comparison t.text) ≡ false)
      × (similar value (normalise_for_comparison t.text) ≡ true))

  -- Some tokens in a row, as many as the size says.
  abbrev pub MatchesWindow : ℕ → List Token → Type 0
  MatchesWindow size tokens =
      (before window behind : List Token) × (tokens ≡ before ++ (window ++ behind))
      × (length window ≡ size)
      × (similar value (window_text window) ≡ true)

  pub search_tokens-found :
      (tokens : List Token)
      → is_some (search_tokens similar value tokens) ≡ true
      → MatchesToken tokens
  unfolding search_tokens
  search_tokens-found [] h = cc
  search_tokens-found (t ∷ tokens) h =
      elim (Bool-cases (is_empty (normalise_for_comparison t.text))) [
        | inl e ↦ inr (search_tokens-found tokens (rw e at h))
        | inr e ↦ elim (Bool-cases (similar value (normalise_for_comparison t.text))) [
          | inl s ↦ inl (e, s)
          | inr s ↦ inr (search_tokens-found tokens (rw (e, s) at h))
        ]
      ]

  pub search_tokens-finds :
      (tokens : List Token)
      → MatchesToken tokens
      → is_some (search_tokens similar value tokens) ≡ true
  unfolding search_tokens
  search_tokens-finds [] h = elim h [ ]
  search_tokens-finds (t ∷ tokens) (inl (e, s)) = rw (e, s) refl
  search_tokens-finds (t ∷ tokens) (inr h) = ground (arith, search_tokens-finds tokens h)

  further :
      (size : ℕ) (t : Token) (tokens : List Token)
      → MatchesWindow size tokens
      → MatchesWindow size (t ∷ tokens)
  further size t tokens (before, window, behind, e, n, s) =
      (t ∷ before, window, behind, ap (λ ts. t ∷ ts) e, n, s)

  split_take :
      (n : ℕ) (xs : List Token)
      → n ≤ length xs
      → (behind : List Token) × (xs ≡ take n xs ++ behind) × (length (take n xs) ≡ n)
  split_take zero xs h = (xs, refl, refl)
  split_take (suc n) [] h = absurd (omega (arith, h))
  split_take (suc n) (x ∷ xs) h =
      let (behind, e, l) = split_take n xs (omega (arith, h)) in
      (behind, ap (λ ys. x ∷ ys) e, ap suc l)

  search_size-found :
      (size : ℕ) (tokens : List Token)
      → is_some (search_size similar value size tokens) ≡ true
      → MatchesWindow size tokens
  unfolding search_size
  search_size-found size [] h = cc
  search_size-found size (t ∷ tokens) h = elim (Bool-cases (leb size (length (t ∷ tokens)))) [
    | inr e ↦ ground (arith, h, e)
    | inl e ↦ elim (Bool-cases (similar value (window_text (take size (t ∷ tokens))))) [
      | inl s ↦
          let (behind, p, n) = split_take size (t ∷ tokens) (leb→le size (length (t ∷ tokens)) e) in
          ([], take size (t ∷ tokens), behind, p, n, s)
      | inr s ↦ further size t tokens (search_size-found size tokens (rw (e, s) at h))
    ]
  ]

  search_size-finds :
      (size : ℕ) (before window behind : List Token)
      → 0 < size
      → length window ≡ size
      → similar value (window_text window) ≡ true
      → is_some (search_size similar value size (before ++ (window ++ behind))) ≡ true
  unfolding search_size
  search_size-finds size [] [] behind z n s = absurd (omega (arith, z, n))
  search_size-finds size [] (t ∷ window) behind z n s =
      let same : take size (t ∷ (window ++ behind)) ≡ t ∷ window =
        ap (λ k. take k (t ∷ (window ++ behind))) (sym n) ∙ take-append (t ∷ window) behind in
      ground
        (arith, z, n, length-append window behind, ap (λ w. similar value (window_text w)) same, s)
  search_size-finds size (t ∷ before) window behind z n s = ground (
    arith,
    z,
    n,
    search_size-finds size before window behind z n s,
    length-append before (window ++ behind),
    length-append window behind,
  )

  search_sizes-found :
      (left size : ℕ) (tokens : List Token)
      → is_some (search_sizes similar value left size tokens) ≡ true
      → (k : ℕ) × (size ≤ k) × (k < size + left) × MatchesWindow k tokens
  unfolding search_sizes
  search_sizes-found zero size tokens h = cc
  search_sizes-found (suc left) size tokens h =
      elim (Option-cases (search_size similar value size tokens)) [
        | inr (t, e) ↦ (size, omega arith, omega arith, search_size-found size tokens (rw e refl))
        | inl e ↦
            let (k, l, m, w) = search_sizes-found left (size + 1) tokens (rw e at h) in
            (k, omega (arith, l), omega (arith, m), w)
      ]

  search_sizes-finds :
      (left size k : ℕ) (tokens : List Token)
      → size ≤ k
      → k < size + left
      → is_some (search_size similar value k tokens) ≡ true
      → is_some (search_sizes similar value left size tokens) ≡ true
  unfolding search_sizes
  search_sizes-finds zero size k tokens l m h = absurd (omega (arith, l, m))
  search_sizes-finds (suc left) size k tokens l m h =
      elim (Option-cases (search_size similar value size tokens)) [
        | inr (t, e) ↦ rw e refl
        | inl e ↦
            rw e (
              search_sizes-finds left (size + 1) k tokens (later_size l m h e) (omega (arith, m)) h)
      ]
    where
      later_size :
          size ≤ k
          → k < size + suc left
          → is_some (search_size similar value k tokens) ≡ true
          → search_size similar value size tokens ≡ none
          → size + 1 ≤ k
      later_size l m h e = ground (arith, l, m, h, e)

  -- From two tokens to five.
  abbrev pub MatchesRow : List Token → Type 0
  MatchesRow tokens = (k : ℕ) × (2 ≤ k) × (k ≤ 5) × MatchesWindow k tokens

  pub windows-found :
      (tokens : List Token)
      → is_some (search_token_windows similar value tokens) ≡ true
      → MatchesRow tokens
  unfolding search_token_windows
  windows-found tokens h =
      let (k, l, m, w) = search_sizes-found (min 6 (length tokens + 1) - 2) 2 tokens h in
      (k, l, omega (arith, l, m), w)

  pub windows-finds :
      (tokens : List Token)
      → MatchesRow tokens
      → is_some (search_token_windows similar value tokens) ≡ true
  unfolding search_token_windows
  windows-finds tokens (k, l, m, (before, window, behind, e, n, s)) =
      search_sizes-finds (min 6 (length tokens + 1) - 2) 2 k tokens l
        (omega (
          arith,
          l,
          m,
          n,
          ap length e,
          length-append before (window ++ behind),
          length-append window behind,
        ))
        (rw e (search_size-finds k before window behind (omega (arith, l)) n s))
