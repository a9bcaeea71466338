-- ===== src/Checksums/Iban.antt =====
-- What the mod-97 test of pdf_ingestion/pipeline/validator.py catches.
use smart_pdf_extractor.Prelude.{
  ℕ, ◌+◌, ◌-◌, ◌*◌, ◌%◌, ◌≡◌, ◌≢◌, inl, inr, refl, ap, sym, ◌∙◌, Bool, true, false, ◌&&◌, ◌||◌,
  Option, none, some, List, [], ◌∷◌, ◌++◌, take, drop, map, arith, Text, String, if◌then◌else◌,
  nat_beq,
}
use smart_pdf_extractor.Checksums.{
  is_digit, is_capital, digits_of, append_digits, numeric_str, int_from, is_one_mod_97,
  is_valid_iban, all_alnum, looks_like_iban, cleaned_iban, validate_iban,
}
use smart_pdf_extractor.Checksums.Misprint.{
  OneOff, slipped, further, OneOff-length, OneOff-rotate, IsSlip, class, map-class,
}

-- The number that a text of digits and capitals is read as, behind the number already read.
abbrev next : ℕ → ℕ → ℕ
next n c = if is_digit c then n * 10 + (c - b'0') else n * 100 + ((c + 10) - b'A')

abbrev value : ℕ → Text → ℕ
value n [] = n
value n (c ∷ s) = value (next n c) s

abbrev int_of : ℕ → Option (List ℕ) → Option ℕ
int_of n none = none
int_of n (some ds) = some (int_from n ds)

int_from-append : (n : ℕ) (cs ds : List ℕ) → int_from n (cs ++ ds) ≡ int_from (int_from n cs) ds
int_from-append n [] ds = refl
int_from-append n (c ∷ cs) ds = int_from-append (n * 10 + c) cs ds

int_of-append_digits :
    (n m : ℕ) (cs ds : Option (List ℕ))
    → int_of n cs ≡ some m
    → int_of n (append_digits cs ds) ≡ int_of m ds
int_of-append_digits n m none ds h = cc
int_of-append_digits n m (some cs) none h = refl
int_of-append_digits n m (some cs) (some ds) h = ground (arith, int_from-append n cs ds, h)

int_of-digits_of :
    (n c : ℕ) → is_capital c || is_digit c ≡ true → int_of n (digits_of c) ≡ some (next n c)
int_of-digits_of n c h = ground (arith, h)

int_of-numeric_str :
    (n : ℕ) (s : Text) → all_alnum s ≡ true → int_of n (numeric_str s) ≡ some (value n s)
unfolding numeric_str
int_of-numeric_str n [] h = refl
int_of-numeric_str n (c ∷ s) h =
    int_of-append_digits n (next n c) (digits_of c) (numeric_str s)
      (int_of-digits_of n c (ground (arith, h)))
    ∙ int_of-numeric_str (next n c) s (ground (arith, h))

is_one_mod_97-value :
    (s : Text) → all_alnum s ≡ true → is_one_mod_97 (numeric_str s) ≡ nat_beq (value 0 s % 97) 1
is_one_mod_97-value s h = through (numeric_str s) (int_of-numeric_str 0 s h)
  where
    through :
        (o : Option (List ℕ))
        → int_of 0 o ≡ some (value 0 s)
        → is_one_mod_97 o ≡ nat_beq (value 0 s % 97) 1
    through none e = cc
    through (some ds) e = ground (arith, e)

-- Ten and a hundred are invertible modulo 97.
next-injective : (c m n : ℕ) → next m c % 97 ≡ next n c % 97 → m % 97 ≡ n % 97
next-injective c m n h = ground (arith, h)

value-injective : (s : Text) (m n : ℕ) → value m s % 97 ≡ value n s % 97 → m % 97 ≡ n % 97
value-injective [] m n h = h
value-injective (c ∷ s) m n h = next-injective c m n (value-injective s (next m c) (next n c) h)

next_slip : (n c d : ℕ) → IsSlip c d → next n c % 97 ≢ next n d % 97
next_slip n c d (k, inl h) e = ground (arith, h, e, k)
next_slip n c d (k, inr h) e = ground (arith, h, e, k)

value_slip : (n : ℕ) (s t : Text) → OneOff IsSlip s t → value n s % 97 ≢ value n t % 97
value_slip n _ _ (slipped c d s r) e = next_slip n c d r (value-injective s (next n c) (next n d) e)
value_slip n _ _ (further c s t h) e = value_slip (next n c) s t h e

-- What a text looks like depends on the classes of its characters.
alnum_classes : List (Bool × Bool) → Bool
alnum_classes [] = true
alnum_classes ((capital, digit) ∷ cs) = (capital || digit) && alnum_classes cs

iban_classes : List (Bool × Bool) → Bool
iban_classes (a ∷ b ∷ c ∷ d ∷ e ∷ cs) = a.0 && b.0 && c.1 && d.1 && alnum_classes (e ∷ cs)
iban_classes _ = false

all_alnum-class : (s : Text) → all_alnum s ≡ alnum_classes (map class s)
unfolding alnum_classes
all_alnum-class [] = refl
all_alnum-class (c ∷ s) = ground (arith, all_alnum-class s)

looks_like_iban-class : (s : Text) → looks_like_iban s ≡ iban_classes (map class s)
unfolding looks_like_iban iban_classes
looks_like_iban-class [] = refl
looks_like_iban-class (a ∷ []) = refl
looks_like_iban-class (a ∷ b ∷ []) = refl
looks_like_iban-class (a ∷ b ∷ c ∷ []) = refl
looks_like_iban-class (a ∷ b ∷ c ∷ d ∷ []) = refl
looks_like_iban-class (a ∷ b ∷ c ∷ d ∷ e ∷ s) = ground (arith, all_alnum-class (e ∷ s))

all_alnum-slip : (s t : Text) → OneOff IsSlip s t → all_alnum s ≡ all_alnum t
all_alnum-slip s t h =
    all_alnum-class s ∙ ap alnum_classes (map-class s t h) ∙ sym (all_alnum-class t)

looks_like_iban-slip : (s t : Text) → OneOff IsSlip s t → looks_like_iban s ≡ looks_like_iban t
looks_like_iban-slip s t h =
    looks_like_iban-class s ∙ ap iban_classes (map-class s t h) ∙ sym (looks_like_iban-class t)

all_alnum-append :
    (s t : Text) → all_alnum s ≡ true → all_alnum t ≡ true → all_alnum (s ++ t) ≡ true
all_alnum-append [] t h k = k
all_alnum-append (c ∷ s) t h k = ground (arith, h, k, all_alnum-append s t)

-- An IBAN is read with its first four characters at the end.
rotated_alnum : (s : Text) → looks_like_iban s ≡ true → all_alnum (drop 4 s ++ take 4 s) ≡ true
unfolding looks_like_iban
rotated_alnum [] h = cc
rotated_alnum (a ∷ []) h = cc
rotated_alnum (a ∷ b ∷ []) h = cc
rotated_alnum (a ∷ b ∷ c ∷ []) h = cc
rotated_alnum (a ∷ b ∷ c ∷ d ∷ []) h = cc
rotated_alnum (a ∷ b ∷ c ∷ d ∷ e ∷ s) h =
    all_alnum-append (e ∷ s) (a ∷ b ∷ c ∷ d ∷ []) (ground (arith, h)) (ground (arith, h))

is_valid_iban_slip :
    (s t : Text)
    → looks_like_iban s ≡ true
    → OneOff IsSlip s t
    → is_valid_iban s ≡ true
    → is_valid_iban t ≡ false
unfolding is_valid_iban
is_valid_iban_slip s t l h v =
    let r = OneOff-rotate IsSlip 4 s t h in
    let alnum = rotated_alnum s l in
    ground (
      arith,
      v,
      OneOff-length IsSlip s t h,
      is_one_mod_97-value (drop 4 s ++ take 4 s) alnum,
      is_one_mod_97-value (drop 4 t ++ take 4 t)
          (sym (all_alnum-slip (drop 4 s ++ take 4 s) (drop 4 t ++ take 4 t) r) ∙ alnum),
      value_slip 0 (drop 4 s ++ take 4 s) (drop 4 t ++ take 4 t) r,
    )

-- Of a value that cleans to a valid IBAN no failure is reported; but if one of its digits is
-- misprinted as another digit, or one of its letters as another letter, the field is reported, with
-- what is reported of the other fields.
pub validate_iban_slip :
    (name : String) (good bad : Text) (fields : List (String × Text))
    → looks_like_iban (cleaned_iban good) ≡ true
    → is_valid_iban (cleaned_iban good) ≡ true
    → OneOff IsSlip (cleaned_iban good) (cleaned_iban bad)
    → (validate_iban ((name, good) ∷ fields) ≡ validate_iban fields)
      × (validate_iban ((name, bad) ∷ fields) ≡ name ∷ validate_iban fields)
unfolding validate_iban
validate_iban_slip name good bad fields l v h =
    let looks = looks_like_iban-slip (cleaned_iban good) (cleaned_iban bad) h in
    let invalid = is_valid_iban_slip (cleaned_iban good) (cleaned_iban bad) l h v in
    (ground (arith, l, v), ground (arith, l, looks, invalid))
