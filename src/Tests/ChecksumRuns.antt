-- ===== src/Tests/ChecksumRuns.antt =====
-- A printed IBAN, an ISIN, their misprints, and the theorems at them.
use smart_pdf_extractor.Prelude.{
  ◌≡◌, refl, false, [], ◌∷◌, arith, Text, inl, upper, upper_char, is_space,
}
use smart_pdf_extractor.Checksums.{
  cleaned_iban, looks_like_iban, is_valid_iban, numeric_str, validate_iban, is_valid_isin,
  luhn_check,
}
use smart_pdf_extractor.Checksums.Misprint.{slipped, further}
use smart_pdf_extractor.Checksums.Iban.{validate_iban_slip}
use smart_pdf_extractor.Checksums.Luhn.{is_valid_isin_slip}

-- "GB82 WEST 1234 5698 7654 32"
abbrev printed : Text
printed =
    b'G' ∷ b'B' ∷ b'8' ∷ b'2' ∷ b' ' ∷ b'W' ∷ b'E' ∷ b'S' ∷ b'T' ∷ b' ' ∷ b'1' ∷ b'2' ∷ b'3' ∷ b'4'
    ∷ b' ' ∷ b'5' ∷ b'6' ∷ b'9' ∷ b'8' ∷ b' ' ∷ b'7' ∷ b'6' ∷ b'5' ∷ b'4' ∷ b' ' ∷ b'3' ∷ b'2' ∷ []

-- "GB82 WEST 1234 5698 7654 82"
abbrev misprinted : Text
misprinted =
    b'G' ∷ b'B' ∷ b'8' ∷ b'2' ∷ b' ' ∷ b'W' ∷ b'E' ∷ b'S' ∷ b'T' ∷ b' ' ∷ b'1' ∷ b'2' ∷ b'3' ∷ b'4'
    ∷ b' ' ∷ b'5' ∷ b'6' ∷ b'9' ∷ b'8' ∷ b' ' ∷ b'7' ∷ b'6' ∷ b'5' ∷ b'4' ∷ b' ' ∷ b'8' ∷ b'2' ∷ []

validate_iban_slip_example :
    (validate_iban (("iban", printed) ∷ ("client", []) ∷ []) ≡ validate_iban (("client", []) ∷ []))
    × (validate_iban (("iban", misprinted) ∷ ("client", []) ∷ [])
        ≡ "iban" ∷ validate_iban (("client", []) ∷ []))
unfolding cleaned_iban upper upper_char is_space looks_like_iban is_valid_iban numeric_str
validate_iban_slip_example =
    validate_iban_slip "iban" printed misprinted (("client", []) ∷ []) refl refl (
      further _ _ _ (
        further _ _ _ (
          further _ _ _ (
            further _ _ _ (
              further _ _ _ (
                further _ _ _ (
                  further _ _ _ (
                    further _ _ _ (
                      further _ _ _ (
                        further _ _ _ (
                          further _ _ _ (
                            further _ _ _ (
                              further _ _ _ (
                                further _ _ _ (
                                  further _ _ _ (
                                    further _ _ _ (
                                      further _ _ _ (
                                        further _ _ _ (
                                          further _ _ _ (
                                            further _ _ _ (
                                              slipped _ _ _
                                                (ground arith, inl refl))))))))))))))))))))))

-- "US0378331005"
abbrev isin : Text
isin = b'U' ∷ b'S' ∷ b'0' ∷ b'3' ∷ b'7' ∷ b'8' ∷ b'3' ∷ b'3' ∷ b'1' ∷ b'0' ∷ b'0' ∷ b'5' ∷ []

-- "US0378331009"
abbrev isin_misprinted : Text
isin_misprinted =
    b'U' ∷ b'S' ∷ b'0' ∷ b'3' ∷ b'7' ∷ b'8' ∷ b'3' ∷ b'3' ∷ b'1' ∷ b'0' ∷ b'0' ∷ b'9' ∷ []

is_valid_isin_slip_run : is_valid_isin isin_misprinted ≡ false
unfolding is_valid_isin numeric_str luhn_check
is_valid_isin_slip_run =
    is_valid_isin_slip isin isin_misprinted
      (further _ _ _ (
        further _ _ _ (
          further _ _ _ (
            further _ _ _ (
              further _ _ _ (
                further _ _ _ (
                  further _ _ _ (
                    further _ _ _ (
                      further _ _ _ (
                        further _ _ _
                          (further _ _ _ (slipped _ _ _ (ground arith, refl, refl)))))))))))))
      refl
