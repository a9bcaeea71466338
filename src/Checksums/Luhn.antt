-- ===== src/Checksums/Luhn.antt =====
-- What the Luhn test of an ISIN (pdf_ingestion/pipeline/validator.py) catches.
use smart_pdf_extractor.Prelude.{
  ℕ, ◌-◌, ◌%◌, ◌<◌, ◌≡◌, ◌≢◌, Bool, true, false, not, Option, none, some, List, [], ◌∷◌, arith,
  Text, reverse, reverse_aux, Absurd,
}
use smart_pdf_extractor.Checksums.{
  is_digit, digits_of, append_digits, numeric_str, luhn_sum, luhn_check, luhn_of, is_valid_isin,
}
use smart_pdf_extractor.Checksums.Misprint.{OneOff, slipped, further, OneOff-length, OneOff-before}

-- A digit for another.
abbrev pub IsOtherDigit : ℕ → ℕ → Type 0
IsOtherDigit c d = (c ≢ d) × (c < 10) × (d < 10)

-- The same of characters.
abbrev pub IsDigitSlip : ℕ → ℕ → Type 0
IsDigitSlip c d = (c ≢ d) × (is_digit c ≡ true) × (is_digit d ≡ true)

-- Doubling permutes the digits.
luhn_sum_slip :
    (odd : Bool) (s t : List ℕ)
    → OneOff IsOtherDigit s t
    → luhn_sum odd s % 10 ≢ luhn_sum odd t % 10
luhn_sum_slip odd _ _ (slipped c d s r) e = ground (arith, r.0, r.1, e)
luhn_sum_slip odd _ _ (further c s t h) e = luhn_sum_slip (not odd) s t h (ground (arith, e))

reverse_aux-kept :
    (s x y : List ℕ)
    → OneOff IsOtherDigit x y
    → OneOff IsOtherDigit (reverse_aux s x) (reverse_aux s y)
reverse_aux-kept [] x y h = h
reverse_aux-kept (c ∷ s) x y h = reverse_aux-kept s (c ∷ x) (c ∷ y) (further c x y h)

reverse_aux-slip :
    (x s t : List ℕ)
    → OneOff IsOtherDigit s t
    → OneOff IsOtherDigit (reverse_aux s x) (reverse_aux t x)
reverse_aux-slip x _ _ (slipped c d s r) = reverse_aux-kept s (c ∷ x) (d ∷ x) (slipped c d x r)
reverse_aux-slip x _ _ (further c s t h) = reverse_aux-slip (c ∷ x) s t h

luhn_check_slip :
    (s t : List ℕ) → OneOff IsOtherDigit s t → luhn_check s ≡ true → luhn_check t ≡ false
unfolding luhn_check
luhn_check_slip s t h v =
    ground (arith, v, luhn_sum_slip false (reverse s) (reverse t) (reverse_aux-slip [] s t h))

-- Two numeric strings with one digit misprinted, or no numeric string.
abbrev SlippedDigits : Option (List ℕ) → Option (List ℕ) → Type 0
SlippedDigits none es = Unit
SlippedDigits (some ds) none = Absurd
SlippedDigits (some ds) (some es) = OneOff IsOtherDigit ds es

append_digits-kept :
    (cs ds es : Option (List ℕ))
    → SlippedDigits ds es
    → SlippedDigits (append_digits cs ds) (append_digits cs es)
append_digits-kept none ds es h = tt
append_digits-kept (some cs) none es h = tt
append_digits-kept (some cs) (some ds) none h = elim h [ ]
append_digits-kept (some cs) (some ds) (some es) h = OneOff-before IsOtherDigit cs ds es h

append_digits-slip :
    (c d : ℕ) (ds : Option (List ℕ))
    → IsOtherDigit c d
    → SlippedDigits (append_digits (some (c ∷ [])) ds) (append_digits (some (d ∷ [])) ds)
append_digits-slip c d none r = tt
append_digits-slip c d (some ds) r = slipped c d ds r

digits_of-digit : (c : ℕ) → is_digit c ≡ true → digits_of c ≡ some ((c - b'0') ∷ [])
digits_of-digit c h = ground (arith, h)

numeric_str-slip :
    (s t : Text) → OneOff IsDigitSlip s t → SlippedDigits (numeric_str s) (numeric_str t)
unfolding numeric_str
numeric_str-slip _ _ (slipped c d s (n, a, b)) =
    rw (digits_of-digit c a, digits_of-digit d b)
      (append_digits-slip (c - b'0') (d - b'0') (numeric_str s) (ground (arith, n, a, b)))
numeric_str-slip _ _ (further c s t h) =
    append_digits-kept (digits_of c) (numeric_str s) (numeric_str t) (numeric_str-slip s t h)

luhn_of_slip :
    (ds es : Option (List ℕ)) → SlippedDigits ds es → luhn_of ds ≡ true → luhn_of es ≡ false
luhn_of_slip none es h v = cc
luhn_of_slip (some ds) none h v = elim h [ ]
luhn_of_slip (some ds) (some es) h v = luhn_check_slip ds es h v

-- A valid ISIN with one digit misprinted as another digit is not valid.
pub is_valid_isin_slip :
    (s t : Text) → OneOff IsDigitSlip s t → is_valid_isin s ≡ true → is_valid_isin t ≡ false
unfolding is_valid_isin
is_valid_isin_slip s t h v = ground (
  arith,
  v,
  OneOff-length IsDigitSlip s t h,
  luhn_of_slip (numeric_str s) (numeric_str t) (numeric_str-slip s t h),
)
