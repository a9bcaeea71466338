-- ===== src/Validator/Fields.antt =====
-- The checks of single fields (validate_isin, validate_bic, validate_date_range,
-- validate_currency_codes and validate_provenance_integrity of pdf_ingestion/pipeline/validator.py).
use smart_pdf_extractor.Prelude.{
  ℕ, ◌+◌, ◌*◌, ◌-◌, ℤ, pos, ltb_ℤ, String, string_eq, nat_eq, list_eq, ◌==◌, Bool, false, not, ◌&&◌,
  ◌||◌, Option, none, some, List, [], ◌∷◌, ◌++◌, Text, codes, strip, upper, ltb, nat_beq, any, take,
  drop, length, if◌then◌else◌,
}
use smart_pdf_extractor.Dict.{Dict}
use smart_pdf_extractor.Checksums.{is_digit, is_capital, is_alpha, all_alnum, is_valid_isin}
use smart_pdf_extractor.Validator.Amounts.{Value, ValidationFailure, field}

pub record Provenance : Type 0 where
  pub page : ℤ
  pub bbox : List ℤ
  pub source : String

-- `text` is `str(value)`, or empty for None.
pub record FieldView : Type 0 where
  pub value : Value
  pub text : Text
  pub provenance : Provenance

-- A moment, of which `second` is that of its day.
pub record Moment : Type 0 where
  pub year : ℕ
  pub month : ℕ
  pub day : ℕ
  pub second : ℕ

abbrev pub failure : String → String → String → ValidationFailure
failure validator name code = record {
  validator_name = validator;
  field_name = field name;
  error_code = code;
}

abbrev pub report_if : Bool → String → String → String → List ValidationFailure
report_if bad validator name code = if bad then failure validator name code ∷ [] else []

-- The loop over the fields.
abbrev pub each_field :
    (String → FieldView → List ValidationFailure) → Dict String FieldView → List ValidationFailure
each_field check [] = []
each_field check ((name, f) ∷ fields) = check name f ++ each_field check fields

unfoldable pub cleaned_text : FieldView → Text
cleaned_text f = upper (strip f.text)

-- `^[A-Z]{2}[A-Z0-9]{9}\d$`
unfoldable pub looks_like_isin : Text → Bool
looks_like_isin (a ∷ b ∷ s) =
    is_capital a && is_capital b && nat_beq (length s) 10 && all_alnum s && any is_digit (drop 9 s)
looks_like_isin _ = false

unfoldable pub validate_isin : Dict String FieldView → List ValidationFailure
unfolding cleaned_text
validate_isin = each_field (λ name f.
    report_if (looks_like_isin (cleaned_text f) && not (is_valid_isin (cleaned_text f)))
      "validate_isin" name "ERR_VALID_003")

-- `^[A-Z0-9]{8}$|^[A-Z0-9]{11}$`
unfoldable pub looks_like_bic : Text → Bool
looks_like_bic s = all_alnum s && (nat_beq (length s) 8 || nat_beq (length s) 11)

-- `s.isalpha()`, `s.isalnum()` of a slice that is not empty
abbrev pub all_alpha : Text → Bool
all_alpha s = not (any (λ c. not (is_alpha c)) s)

abbrev pub all_alnum_any_case : Text → Bool
all_alnum_any_case s = not (any (λ c. not (is_alpha c || is_digit c)) s)

unfoldable pub is_valid_bic : Text → Bool
is_valid_bic bic =
    (nat_beq (length bic) 8 || nat_beq (length bic) 11)
    && all_alpha (take 4 bic)
    && all_alpha (take 2 (drop 4 bic))
    && all_alnum_any_case (take 2 (drop 6 bic))
    && (nat_beq (length bic) 8 || all_alnum_any_case (take 3 (drop 8 bic)))

unfoldable pub validate_bic : Dict String FieldView → List ValidationFailure
unfolding cleaned_text
validate_bic = each_field (λ name f.
    report_if (looks_like_bic (cleaned_text f) && not (is_valid_bic (cleaned_text f)))
      "validate_bic" name "ERR_VALID_004")

-- `now.replace(year=now.year - 10)`: ten years before a leap day there is none, and replace raises.
unfoldable pub ten_years_before : Moment → Option Moment
ten_years_before now =
    if nat_beq now.month 2 && nat_beq now.day 29
    then none
    else some (record now { year = now.year - 10 })

-- The order of moments.
abbrev pub stamp : Moment → ℕ
stamp m = ((m.year * 13 + m.month) * 32 + m.day) * 86400 + m.second

abbrev pub date_failures : Moment → Moment → Option Moment → String → List ValidationFailure
date_failures now ten_years_ago none name = []
date_failures now ten_years_ago (some parsed) name =
    report_if (ltb (stamp now) (stamp parsed) || ltb (stamp parsed) (stamp ten_years_ago))
      "validate_date_range" name "ERR_VALID_005"

-- `strptime` reads a date in one of eight formats, or none.
module _ (try_parse_date : Text → Option Moment) where
  abbrev pub date_range_from :
      Moment → Option Moment → Dict String FieldView → Option (List ValidationFailure)
  date_range_from now none fields = none
  date_range_from now (some ten_years_ago) fields =
      some
        (each_field (λ name f. date_failures now ten_years_ago (try_parse_date f.text) name) fields)

  -- `none` if it raises.
  unfoldable pub validate_date_range :
      Moment → Dict String FieldView → Option (List ValidationFailure)
  unfolding ten_years_before
  validate_date_range now fields = date_range_from now (ten_years_before now) fields

abbrev pub valid_currency_codes : List String
valid_currency_codes =
    "AED" ∷ "AFN" ∷ "ALL" ∷ "AMD" ∷ "ANG" ∷ "AOA" ∷ "ARS" ∷ "AUD" ∷ "AWG" ∷ "AZN" ∷ "BAM" ∷ "BBD"
    ∷ "BDT" ∷ "BGN" ∷ "BHD" ∷ "BIF" ∷ "BMD" ∷ "BND" ∷ "BOB" ∷ "BRL" ∷ "BSD" ∷ "BTN" ∷ "BWP" ∷ "BYN"
    ∷ "BZD" ∷ "CAD" ∷ "CDF" ∷ "CHF" ∷ "CLP" ∷ "CNY" ∷ "COP" ∷ "CRC" ∷ "CUP" ∷ "CVE" ∷ "CZK" ∷ "DJF"
    ∷ "DKK" ∷ "DOP" ∷ "DZD" ∷ "EGP" ∷ "ERN" ∷ "ETB" ∷ "EUR" ∷ "FJD" ∷ "FKP" ∷ "GBP" ∷ "GEL" ∷ "GHS"
    ∷ "GIP" ∷ "GMD" ∷ "GNF" ∷ "GTQ" ∷ "GYD" ∷ "HKD" ∷ "HNL" ∷ "HRK" ∷ "HTG" ∷ "HUF" ∷ "IDR" ∷ "ILS"
    ∷ "INR" ∷ "IQD" ∷ "IRR" ∷ "ISK" ∷ "JMD" ∷ "JOD" ∷ "JPY" ∷ "KES" ∷ "KGS" ∷ "KHR" ∷ "KMF" ∷ "KPW"
    ∷ "KRW" ∷ "KWD" ∷ "KYD" ∷ "KZT" ∷ "LAK" ∷ "LBP" ∷ "LKR" ∷ "LRD" ∷ "LSL" ∷ "LYD" ∷ "MAD" ∷ "MDL"
    ∷ "MGA" ∷ "MKD" ∷ "MMK" ∷ "MNT" ∷ "MOP" ∷ "MRU" ∷ "MUR" ∷ "MVR" ∷ "MWK" ∷ "MXN" ∷ "MYR" ∷ "MZN"
    ∷ "NAD" ∷ "NGN" ∷ "NIO" ∷ "NOK" ∷ "NPR" ∷ "NZD" ∷ "OMR" ∷ "PAB" ∷ "PEN" ∷ "PGK" ∷ "PHP" ∷ "PKR"
    ∷ "PLN" ∷ "PYG" ∷ "QAR" ∷ "RON" ∷ "RSD" ∷ "RUB" ∷ "RWF" ∷ "SAR" ∷ "SBD" ∷ "SCR" ∷ "SDG" ∷ "SEK"
    ∷ "SGD" ∷ "SHP" ∷ "SLE" ∷ "SOS" ∷ "SRD" ∷ "SSP" ∷ "STN" ∷ "SVC" ∷ "SYP" ∷ "SZL" ∷ "THB" ∷ "TJS"
    ∷ "TMT" ∷ "TND" ∷ "TOP" ∷ "TRY" ∷ "TTD" ∷ "TWD" ∷ "TZS" ∷ "UAH" ∷ "UGX" ∷ "USD" ∷ "UYU" ∷ "UZS"
    ∷ "VES" ∷ "VND" ∷ "VUV" ∷ "WST" ∷ "XAF" ∷ "XCD" ∷ "XOF" ∷ "XPF" ∷ "YER" ∷ "ZAR" ∷ "ZMW" ∷ "ZWL"
    ∷ []

-- `^[A-Z]{3}$`
abbrev pub looks_like_currency : Text → Bool
looks_like_currency s = nat_beq (length s) 3 && not (any (λ c. not (is_capital c)) s)

unfoldable pub validate_currency_codes : Dict String FieldView → List ValidationFailure
unfolding cleaned_text
validate_currency_codes = each_field (λ name f.
    report_if
      (looks_like_currency (cleaned_text f)
        && not (any (λ s. codes s == cleaned_text f) valid_currency_codes))
      "validate_currency_codes" name "ERR_VALID_006")

abbrev pub is_source : String → Bool
is_source s = s == "native" || s == "ocr" || s == "vlm"

unfoldable pub provenance_failures : ℕ → String → Provenance → List ValidationFailure
provenance_failures total_pages name prov =
    let report : Bool → List ValidationFailure =
      λ bad. report_if bad "validate_provenance_integrity" name "ERR_VALID_007" in
    report (ltb_ℤ prov.page (pos 1))
    ++ report (ltb 0 total_pages && ltb_ℤ (pos total_pages) prov.page)
    ++ report (not (nat_beq (length prov.bbox) 4) || any (λ v. ltb_ℤ v (pos 0)) prov.bbox)
    ++ report (not (is_source prov.source))

unfoldable pub validate_provenance_integrity : ℕ → Dict String FieldView → List ValidationFailure
validate_provenance_integrity total_pages =
    each_field (λ name f. provenance_failures total_pages name f.provenance)

-- validate_iban, with its names of fields as failures.
abbrev pub texts_of : Dict String FieldView → List (String × Text)
texts_of [] = []
texts_of ((name, f) ∷ fields) = (name, f.text) ∷ texts_of fields

abbrev pub iban_failures : List String → List ValidationFailure
iban_failures [] = []
iban_failures (name ∷ names) = failure "validate_iban" name "ERR_VALID_002" ∷ iban_failures names
