-- ===== src/Runner/NothingLost.antt =====
-- No transaction is lost or doubled on the way from the sections to the accounts of the result
-- (process_document of pdf_ingestion/pipeline/runner.py).
use smart_pdf_extractor.Prelude.{
  ◌≡◌, refl, ap, sym, ◌∙◌, String, Bool, true, false, Option, none, some, List, [], ◌∷◌, ◌++◌, ◌==◌,
  string_eq, ==_iff, if◌then◌else◌, count_if, All, is_some, arith, Bool-cases, Option-cases, inl,
  inr,
}
use mathlib.Core.List.{append_assoc, append-nil}
use smart_pdf_extractor.Dict
use smart_pdf_extractor.Dict.{Dict, lookup-put, lookup-put_same}
use smart_pdf_extractor.Runner.Merging.{
  Transaction, Account, FieldValue, Field, null, scalar, accounts, existing_accounts, list_or_empty,
  is_truthy, merged_accounts_field, merged_field, merge_field, merge_section, merge_sections,
}
use smart_pdf_extractor.Runner.OneAccount.{all_transactions, count_deduplicate}
use smart_pdf_extractor.Runner.Accounts.{
  key_eq, deduplicated, put_deduplicated, deduplicate_accounts,
}

-- The transactions in the `accounts` of a dict of fields.
abbrev pub of_field : Option Field → List Transaction
of_field none = []
of_field (some f) = all_transactions (list_or_empty f.value)

abbrev pub of_fields : Dict String Field → List Transaction
of_fields d = of_field (Dict.lookup "accounts" d)

-- Of all entries of a section, as the runner goes through them.
abbrev pub of_section : Dict String Field → List Transaction
of_section [] = []
of_section ((name, f) ∷ fields) =
    if name == "accounts"
    then all_transactions (list_or_empty f.value) ++ of_section fields
    else of_section fields

abbrev pub of_sections : List (Dict String Field) → List Transaction
of_sections [] = []
of_sections (fields ∷ sections) = of_section fields ++ of_sections sections

-- The `accounts` of a section are a list, empty or None.
abbrev pub IsListed : String × Field → Type 0
IsListed (name, f) =
    (if name == "accounts" then is_some (existing_accounts f.value) else true) ≡ true

abbrev listed : Option Field → Bool
listed none = true
listed (some f) = is_some (existing_accounts f.value)

all_transactions-append :
    (xs ys : List (Option Account))
    → all_transactions (xs ++ ys) ≡ all_transactions xs ++ all_transactions ys
all_transactions-append [] ys = refl
all_transactions-append (none ∷ xs) ys = all_transactions-append xs ys
all_transactions-append (some a ∷ xs) ys =
    ap (λ ts. a.transactions ++ ts) (all_transactions-append xs ys)
    ∙ sym (append_assoc a.transactions (all_transactions xs) (all_transactions ys))

existing-listed :
    (v : FieldValue) (accts : List (Option Account))
    → existing_accounts v ≡ some accts
    → list_or_empty v ≡ accts
existing-listed null accts h = cc
existing-listed (scalar s) accts h = elim (Bool-cases (s == "")) [
  | inl e ↦ cc (rw e at h)
  | inr e ↦ ground (arith, rw e at h)
]
existing-listed (accounts xs) accts h = cc

falsy_empty : (v : FieldValue) → is_truthy v ≡ false → all_transactions (list_or_empty v) ≡ []
falsy_empty null h = refl
falsy_empty (scalar s) h = refl
falsy_empty (accounts []) h = refl
falsy_empty (accounts (a ∷ accts)) h = cc

merged-listed :
    (o : Option Field) (new : Field)
    → listed o ≡ true
    → is_some (existing_accounts new.value) ≡ true
    → listed (some (merged_accounts_field o new)) ≡ true
merged-listed none new h k = k
merged-listed (some old) new h k = elim (Bool-cases (is_truthy new.value)) [
  | inl e ↦ elim (Option-cases (existing_accounts old.value)) [
    | inl n ↦ ground (arith, h, n)
    | inr (accts, n) ↦ rw (e, n) refl
  ]
  | inr e ↦ rw e h
]

of-merged :
    (o : Option Field) (new : Field)
    → listed o ≡ true
    → of_field (some (merged_accounts_field o new))
      ≡ of_field o ++ all_transactions (list_or_empty new.value)
of-merged none new h = refl
of-merged (some old) new h = elim (Bool-cases (is_truthy new.value)) [
  | inl e ↦ elim (Option-cases (existing_accounts old.value)) [
    | inl n ↦ ground (arith, h, n)
    | inr (accts, n) ↦
        rw (e, n)
          (all_transactions-append accts (list_or_empty new.value)
            ∙ ap (λ xs. all_transactions xs ++ all_transactions (list_or_empty new.value))
                (sym (existing-listed old.value accts n)))
  ]
  | inr e ↦
      rw (e, falsy_empty new.value e)
        (sym (append-nil (all_transactions (list_or_empty old.value))))
]

abbrev field_after : String → Field → Dict String Field → Option Field
field_after name new all_fields =
    if name == "accounts"
    then some (merged_accounts_field (Dict.lookup "accounts" all_fields) new)
    else Dict.lookup "accounts" all_fields

lookup-merge_field :
    (name : String) (new : Field) (all_fields : Dict String Field)
    → Dict.lookup "accounts" (merge_field name new all_fields) ≡ field_after name new all_fields
unfolding merge_field
lookup-merge_field name new all_fields = elim (Bool-cases (name == "accounts")) [
  | inl e ↦
      let same : name ≡ "accounts" = (==_iff name "accounts").0 e in
      rw same (lookup-put "accounts" "accounts" _ all_fields)
  | inr e ↦ rw e (
      lookup-put name "accounts" (merged_field (Dict.lookup name all_fields) new) all_fields
      ∙ rw e refl)
]

of_entry : String → Field → List Transaction
of_entry name f = if name == "accounts" then all_transactions (list_or_empty f.value) else []

merge_field-listed :
    (name : String) (new : Field) (all_fields : Dict String Field)
    → listed (Dict.lookup "accounts" all_fields) ≡ true
    → IsListed (name, new)
    → listed (Dict.lookup "accounts" (merge_field name new all_fields)) ≡ true
merge_field-listed name new all_fields h k = elim (Bool-cases (name == "accounts")) [
  | inl e ↦
      rw (lookup-merge_field name new all_fields)
        (rw e (merged-listed (Dict.lookup "accounts" all_fields) new h (rw e at k)))
  | inr e ↦ rw (lookup-merge_field name new all_fields) (rw e h)
]

of_fields-merge_field :
    (name : String) (new : Field) (all_fields : Dict String Field)
    → listed (Dict.lookup "accounts" all_fields) ≡ true
    → of_fields (merge_field name new all_fields) ≡ of_fields all_fields ++ of_entry name new
unfolding of_entry
of_fields-merge_field name new all_fields h = elim (Bool-cases (name == "accounts")) [
  | inl e ↦
      rw (lookup-merge_field name new all_fields)
        (rw e (of-merged (Dict.lookup "accounts" all_fields) new h))
  | inr e ↦
      rw (lookup-merge_field name new all_fields) (rw e (sym (append-nil (of_fields all_fields))))
]

of_section-entry :
    (name : String) (f : Field) (fields : Dict String Field)
    → of_section ((name, f) ∷ fields) ≡ of_entry name f ++ of_section fields
unfolding of_entry
of_section-entry name f fields = elim (Bool-cases (name == "accounts")) [
  | inl e ↦ rw e refl
  | inr e ↦ rw e refl
]

merge_section-kept :
    (fields all_fields : Dict String Field)
    → listed (Dict.lookup "accounts" all_fields) ≡ true
    → All IsListed fields
    → (of_fields (merge_section fields all_fields) ≡ of_fields all_fields ++ of_section fields)
      × (listed (Dict.lookup "accounts" (merge_section fields all_fields)) ≡ true)
unfolding merge_section
merge_section-kept [] all_fields h k = (sym (append-nil (of_fields all_fields)), h)
merge_section-kept ((name, f) ∷ fields) all_fields h k =
    let (e, l) =
      merge_section-kept fields (merge_field name f all_fields)
        (merge_field-listed name f all_fields h k.0) k.1 in
    (
      e
          ∙ ap (λ ts. ts ++ of_section fields) (of_fields-merge_field name f all_fields h)
          ∙ append_assoc (of_fields all_fields) (of_entry name f) (of_section fields)
          ∙ ap (λ ts. of_fields all_fields ++ ts) (sym (of_section-entry name f fields)),
      l,
    )

merge_sections-kept :
    (sections : List (Dict String Field)) (all_fields : Dict String Field)
    → listed (Dict.lookup "accounts" all_fields) ≡ true
    → All (All IsListed) sections
    → of_fields (merge_sections sections all_fields) ≡ of_fields all_fields ++ of_sections sections
unfolding merge_sections
merge_sections-kept [] all_fields h k = sym (append-nil (of_fields all_fields))
merge_sections-kept (fields ∷ sections) all_fields h k =
    let (e, l) = merge_section-kept fields all_fields h k.0 in
    merge_sections-kept sections (merge_section fields all_fields) l k.1
    ∙ ap (λ ts. ts ++ of_sections sections) e
    ∙ append_assoc (of_fields all_fields) (of_section fields) (of_sections sections)

count_deduplicated :
    (p : Transaction → Bool) (v : FieldValue)
    → count_if p (all_transactions (list_or_empty (deduplicated v)))
      ≡ count_if p (all_transactions (list_or_empty v))
count_deduplicated p null = refl
count_deduplicated p (scalar s) = refl
count_deduplicated p (accounts raw) = count_deduplicate p raw

count_put :
    (p : Transaction → Bool) (o : Option Field) (all_fields : Dict String Field)
    → Dict.lookup "accounts" all_fields ≡ o
    → count_if p (of_fields (put_deduplicated o all_fields)) ≡ count_if p (of_field o)
count_put p none all_fields e = ap (λ found. count_if p (of_field found)) e
count_put p (some f) all_fields e =
    ap (λ found. count_if p (of_field found))
      (lookup-put_same "accounts" (record f { value = deduplicated f.value }) all_fields)
    ∙ count_deduplicated p f.value

-- Where the accounts of each section are a list or None, the accounts of the result have each
-- transaction as often as the sections have it in all: merging the sections, and the accounts of
-- one number, neither loses nor doubles one.
pub transactions_kept :
    (sections : List (Dict String Field)) (p : Transaction → Bool)
    → All (All IsListed) sections
    → count_if p (of_fields (deduplicate_accounts (merge_sections sections [])))
      ≡ count_if p (of_sections sections)
unfolding deduplicate_accounts Dict.lookup
transactions_kept sections p h =
    count_put p (Dict.lookup "accounts" (merge_sections sections [])) (merge_sections sections [])
      refl
    ∙ ap (count_if p) (merge_sections-kept sections [] refl h)
