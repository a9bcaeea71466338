-- ===== src/Checksums/Misprint.antt =====
-- Texts that differ in one character, for the checksums of pdf_ingestion/pipeline/validator.py.
use smart_pdf_extractor.Prelude.{
  ℕ, suc, zero, ◌≡◌, ◌≢◌, ◌⊎◌, inl, inr, refl, ap, Bool, true, ◌&&◌, List, [], ◌∷◌, ◌++◌, take,
  drop, map, length, arith, Text,
}
use smart_pdf_extractor.Checksums.{is_digit, is_capital}

-- The same but for one place, where the two elements are related.
pub data OneOff {A : Type 0} (R : A → A → Type 0) : List A → List A → Type 0 where
  slipped : (c d : A) (s : List A) → R c d → OneOff R (c ∷ s) (d ∷ s)
  further : (c : A) (s t : List A) → OneOff R s t → OneOff R (c ∷ s) (c ∷ t)

module _ {A : Type 0} (R : A → A → Type 0) where
  pub OneOff-length : (s t : List A) → OneOff R s t → length s ≡ length t
  OneOff-length _ _ (slipped c d s r) = refl
  OneOff-length _ _ (further c s t h) = ap suc (OneOff-length s t h)

  pub OneOff-before : (u s t : List A) → OneOff R s t → OneOff R (u ++ s) (u ++ t)
  OneOff-before [] s t h = h
  OneOff-before (c ∷ u) s t h = further c (u ++ s) (u ++ t) (OneOff-before u s t h)

  pub OneOff-behind : (u s t : List A) → OneOff R s t → OneOff R (s ++ u) (t ++ u)
  OneOff-behind u _ _ (slipped c d s r) = slipped c d (s ++ u) r
  OneOff-behind u _ _ (further c s t h) = further c (s ++ u) (t ++ u) (OneOff-behind u s t h)

  -- The difference is among the first elements, or behind them.
  OneOff-split :
      (n : ℕ) (s t : List A)
      → OneOff R s t
      → (OneOff R (take n s) (take n t) × (drop n s ≡ drop n t))
        ⊎ ((take n s ≡ take n t) × OneOff R (drop n s) (drop n t))
  OneOff-split zero s t h = inr (refl, h)
  OneOff-split (suc n) _ _ (slipped c d s r) = inl (slipped c d (take n s) r, refl)
  OneOff-split (suc n) _ _ (further c s t h) = elim (OneOff-split n s t h) [
    | inl k ↦ inl (further c (take n s) (take n t) k.0, k.1)
    | inr k ↦ inr (ap (◌∷◌ c) k.0, k.1)
  ]

  -- Lists stay one place apart when their first elements move to the end.
  pub OneOff-rotate :
      (n : ℕ) (s t : List A) → OneOff R s t → OneOff R (drop n s ++ take n s) (drop n t ++ take n t)
  OneOff-rotate n s t h = elim (OneOff-split n s t h) [
    | inl k ↦ rw k.1 (OneOff-before (drop n t) (take n s) (take n t) k.0)
    | inr k ↦ rw k.0 (OneOff-behind (take n t) (drop n s) (drop n t) k.1)
  ]

-- A digit for another, or a capital for another.
abbrev pub IsSlip : ℕ → ℕ → Type 0
IsSlip c d = (c ≢ d) × ((is_digit c && is_digit d ≡ true) ⊎ (is_capital c && is_capital d ≡ true))

abbrev pub class : ℕ → Bool × Bool
class c = (is_capital c, is_digit c)

class_slip : (c d : ℕ) → IsSlip c d → class c ≡ class d
class_slip c d (n, inl h) = ground (arith, h)
class_slip c d (n, inr h) = ground (arith, h)

pub map-class : (s t : Text) → OneOff IsSlip s t → map class s ≡ map class t
map-class _ _ (slipped c d s r) = ap (λ x. x ∷ map class s) (class_slip c d r)
map-class _ _ (further c s t h) = ap (◌∷◌ (class c)) (map-class s t h)
