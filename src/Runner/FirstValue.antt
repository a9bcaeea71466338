-- ===== src/Runner/FirstValue.antt =====
-- The value of a field other than the accounts (process_document of
-- pdf_ingestion/pipeline/runner.py, phase 3).
use smart_pdf_extractor.Prelude.{
  ◌≡◌, refl, ap, sym, ◌∙◌, String, false, Option, none, some, List, [], ◌∷◌, ◌++◌, ◌==◌, string_eq,
  ==_iff, if◌then◌else◌, arith, Bool-cases, inl, inr,
}
use smart_pdf_extractor.Dict
use smart_pdf_extractor.Dict.{Dict, lookup-put}
use smart_pdf_extractor.Runner.Merging.{
  Field, is_null, merged_field, merge_field, merge_section, merge_sections,
}

-- The fields of a name, in the order of the sections.
abbrev pub named : String → Dict String Field → List Field
named name [] = []
named name ((other, f) ∷ fields) =
    if other == name then f ∷ named name fields else named name fields

abbrev pub found : String → List (Dict String Field) → List Field
found name [] = []
found name (fields ∷ sections) = named name fields ++ found name sections

-- The first one that is not None, or the first one.
abbrev pub not_null_or : Field → List Field → Field
not_null_or f [] = f
not_null_or f (g ∷ fields) = if is_null g.value then not_null_or f fields else g

abbrev pub first_value : List Field → Option Field
first_value [] = none
first_value (f ∷ fields) = some (if is_null f.value then not_null_or f fields else f)

abbrev merged_all : Option Field → List Field → Option Field
merged_all o [] = o
merged_all o (f ∷ fields) = merged_all (some (merged_field o f)) fields

merged_all-append :
    (o : Option Field) (xs ys : List Field)
    → merged_all o (xs ++ ys) ≡ merged_all (merged_all o xs) ys
merged_all-append o [] ys = refl
merged_all-append o (x ∷ xs) ys = merged_all-append (some (merged_field o x)) xs ys

merged_all-some :
    (f : Field) (fields : List Field)
    → merged_all (some f) fields ≡ some (if is_null f.value then not_null_or f fields else f)
merged_all-some f [] = ground arith
merged_all-some f (g ∷ fields) = ground (arith, merged_all-some f fields, merged_all-some g fields)

merged_all-none : (fields : List Field) → merged_all none fields ≡ first_value fields
merged_all-none [] = refl
merged_all-none (f ∷ fields) = merged_all-some f fields

lookup-merge_field :
    (name other : String) (f : Field) (all_fields : Dict String Field)
    → (name == "accounts") ≡ false
    → Dict.lookup name (merge_field other f all_fields) ≡ (
        if other == name
        then some (merged_field (Dict.lookup name all_fields) f)
        else Dict.lookup name all_fields)
unfolding merge_field
lookup-merge_field name other f all_fields h = elim (Bool-cases (other == name)) [
  | inl e ↦
      let same : other ≡ name = (==_iff other name).0 e in
      rw same
        (rw h (lookup-put name name (merged_field (Dict.lookup name all_fields) f) all_fields))
  | inr e ↦ lookup-put other name _ all_fields ∙ rw e refl
]

lookup-merge_section :
    (name : String) (fields all_fields : Dict String Field)
    → (name == "accounts") ≡ false
    → Dict.lookup name (merge_section fields all_fields)
      ≡ merged_all (Dict.lookup name all_fields) (named name fields)
unfolding merge_section
lookup-merge_section name [] all_fields h = refl
lookup-merge_section name ((other, f) ∷ fields) all_fields h = elim (Bool-cases (other == name)) [
  | inl e ↦ rw e (
      lookup-merge_section name fields (merge_field other f all_fields) h
      ∙ ap (λ o. merged_all o (named name fields))
          (lookup-merge_field name other f all_fields h ∙ rw e refl))
  | inr e ↦ rw e (
      lookup-merge_section name fields (merge_field other f all_fields) h
      ∙ ap (λ o. merged_all o (named name fields))
          (lookup-merge_field name other f all_fields h ∙ rw e refl))
]

lookup-merge_sections :
    (name : String) (sections : List (Dict String Field)) (all_fields : Dict String Field)
    → (name == "accounts") ≡ false
    → Dict.lookup name (merge_sections sections all_fields)
      ≡ merged_all (Dict.lookup name all_fields) (found name sections)
unfolding merge_sections
lookup-merge_sections name [] all_fields h = refl
lookup-merge_sections name (fields ∷ sections) all_fields h =
    lookup-merge_sections name sections (merge_section fields all_fields) h
    ∙ ap (λ o. merged_all o (found name sections)) (lookup-merge_section name fields all_fields h)
    ∙ sym
        (merged_all-append (Dict.lookup name all_fields) (named name fields) (found name sections))

-- Any field but the accounts has in the result the first value that is not None in the order of the
-- sections; it is None if all are, and missing if no section has the field.
pub merge_sections-first :
    (name : String) (sections : List (Dict String Field))
    → (name == "accounts") ≡ false
    → Dict.lookup name (merge_sections sections []) ≡ first_value (found name sections)
unfolding Dict.lookup
merge_sections-first name sections h =
    lookup-merge_sections name sections [] h ∙ merged_all-none (found name sections)
