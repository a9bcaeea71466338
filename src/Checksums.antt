-- ===== src/Checksums.antt =====
-- The checksums of pdf_ingestion/pipeline/validator.py: the mod-97 test of an IBAN and the Luhn
-- test of an ISIN. Characters are those of ASCII.
use smart_pdf_extractor.Prelude.{
  ℕ, ◌+◌, ◌-◌, ◌*◌, ◌/◌, ◌%◌, Bool, true, false, not, ◌&&◌, ◌||◌, Option, none, some, List, [], ◌∷◌,
  ◌++◌, ltb, leb, nat_beq, if◌then◌else◌, Text, take, drop, length, map, reverse, String, is_space,
  upper, select,
}
pub mod Misprint
pub mod Iban
pub mod Luhn

-- `c.isdigit()`, `c.isalpha()`
abbrev pub is_digit : ℕ → Bool
is_digit c = leb b'0' c && leb c b'9'

abbrev pub is_capital : ℕ → Bool
is_capital c = leb b'A' c && leb c b'Z'

abbrev pub is_alpha : ℕ → Bool
is_alpha c = is_capital c || (leb b'a' c && leb c b'z')

-- The digits of `char` itself, or of `str(ord(char) - ord("A") + 10)`, which are two.
abbrev pub digits_of : ℕ → Option (List ℕ)
digits_of c =
    if is_digit c
    then some ((c - b'0') ∷ [])
    else if is_alpha c
    then some ((((c + 10) - b'A') / 10) ∷ (((c + 10) - b'A') % 10) ∷ [])
    else none

abbrev pub append_digits : Option (List ℕ) → Option (List ℕ) → Option (List ℕ)
append_digits none ds = none
append_digits (some cs) none = none
append_digits (some cs) (some ds) = some (cs ++ ds)

-- The loop that builds the numeric string; None where the code returns False.
unfoldable pub numeric_str : Text → Option (List ℕ)
numeric_str [] = some []
numeric_str (c ∷ s) = append_digits (digits_of c) (numeric_str s)

-- `int(numeric_str)`, from the digits read so far on
abbrev pub int_from : ℕ → List ℕ → ℕ
int_from n [] = n
int_from n (d ∷ ds) = int_from (n * 10 + d) ds

abbrev pub is_one_mod_97 : Option (List ℕ) → Bool
is_one_mod_97 none = false
is_one_mod_97 (some ds) = nat_beq (int_from 0 ds % 97) 1

unfoldable pub is_valid_iban : Text → Bool
is_valid_iban iban =
    if ltb (length iban) 5 then false else is_one_mod_97 (numeric_str (drop 4 iban ++ take 4 iban))

-- A digit at an odd place from the right is doubled.
abbrev pub doubled : ℕ → ℕ
doubled d = if ltb 9 (d * 2) then d * 2 - 9 else d * 2

abbrev pub luhn_sum : Bool → List ℕ → ℕ
luhn_sum odd [] = 0
luhn_sum odd (d ∷ ds) = (if odd then doubled d else d) + luhn_sum (not odd) ds

unfoldable pub luhn_check : List ℕ → Bool
luhn_check digits = nat_beq (luhn_sum false (reverse digits) % 10) 0

abbrev pub luhn_of : Option (List ℕ) → Bool
luhn_of none = false
luhn_of (some ds) = luhn_check ds

unfoldable pub is_valid_isin : Text → Bool
is_valid_isin isin = if not (nat_beq (length isin) 12) then false else luhn_of (numeric_str isin)

-- `re.match(r"^[A-Z]{2}\d{2}[A-Z0-9]+$", cleaned)`
abbrev pub all_alnum : Text → Bool
all_alnum [] = true
all_alnum (c ∷ s) = (is_capital c || is_digit c) && all_alnum s

unfoldable pub looks_like_iban : Text → Bool
looks_like_iban (a ∷ b ∷ c ∷ d ∷ e ∷ s) =
    is_capital a && is_capital b && is_digit c && is_digit d && all_alnum (e ∷ s)
looks_like_iban _ = false

-- `re.sub(r"\s+", "", value).upper()`
unfoldable pub cleaned_iban : Text → Text
cleaned_iban value = upper (select (λ c. not (is_space c)) value)

-- The names of the fields that `validate_iban` reports, of names and texts of values.
unfoldable pub validate_iban : List (String × Text) → List String
validate_iban [] = []
validate_iban ((name, value) ∷ fields) =
    let failures = validate_iban fields in
    let cleaned = cleaned_iban value in
    if not (looks_like_iban cleaned)
    then failures
    else if not (is_valid_iban cleaned)
    then name ∷ failures
    else failures
