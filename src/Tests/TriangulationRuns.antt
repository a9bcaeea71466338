-- ===== src/Tests/TriangulationRuns.antt =====
-- Two tables of one row, of which the second column differs.
use smart_pdf_extractor.Prelude.{
  ◌≡◌, ◌↔◌, refl, Bool, [], ◌∷◌, Text, codes, list_eq, nat_eq, ◌==◌, strip, lower, lower_char,
  is_space,
}
use smart_pdf_extractor.Triangulation.{
  Table, agreement, soft_flag, fuzzy_match, normalise_cell, triangulate_table,
}
use smart_pdf_extractor.Triangulation.Agreement.{IsVerdict, triangulate_table_iff}

abbrev same_text : Text → Text → Bool
same_text a b = a == b

abbrev plumbed : Table
plumbed = record {
  table_id = "t";
  headers = codes "Date" ∷ codes "Debit" ∷ [];
  rows = (codes "1 May" ∷ codes "10.00" ∷ []) ∷ [];
}

abbrev other : Table
other = record {
  table_id = "t";
  headers = codes " date" ∷ codes "Debit" ∷ [];
  rows = (codes "1 May" ∷ codes "70.00" ∷ []) ∷ [];
}

one_cell_differs : (triangulate_table same_text plumbed other).verdict ≡ soft_flag
unfolding triangulate_table fuzzy_match normalise_cell lower strip is_space lower_char
one_cell_differs = refl

-- Without headers no cell is compared.
headerless_agree :
    (triangulate_table same_text
      (record plumbed { headers = [] })
      (record other { headers = [] })).verdict
    ≡ agreement
unfolding triangulate_table
headerless_agree = refl

triangulate_table_iff_example :
    ((triangulate_table same_text plumbed other).verdict ≡ soft_flag)
    ↔ IsVerdict same_text plumbed other soft_flag
triangulate_table_iff_example = triangulate_table_iff same_text plumbed other soft_flag
