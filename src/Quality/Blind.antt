-- ===== src/Quality/Blind.antt =====
-- What is left of the checks when the runner scores its own rows
-- (pdf_ingestion/pipeline/quality_scorer.py).
use smart_pdf_extractor.Prelude.{
  ℕ, ◌≡◌, refl, ap, String, Bool, true, ◌&&◌, not, Option, none, some, List, [], ◌∷◌, Text, any,
  select, map, length, ltb, if◌then◌else◌, All, Bool-cases, ◌⊎◌, inl, inr,
}
use smart_pdf_extractor.Quality.{
  Row, dict_row, table_row, Table, append_found, collect, values, value_at, passed_or, all_values,
  column_values, row_counts_of, row_counts, is_uniform, CheckResult, check_cell_fragmentation,
  check_row_uniformity, check_date_column_incoherence, check_numeric_column_incoherence,
  has_trigger, date_column_triggers, numeric_column_triggers, is_fragmented,
  check_header_fragmentation, score_tables,
}

abbrev pub IsTableRow : Row → Type 0
IsTableRow (dict_row d) = ⊥
IsTableRow (table_row cells) = Unit

-- An exception, or nothing found.
abbrev NoValues {ℓ} : {A : Type ℓ} → Option (List A) → Type ℓ
NoValues o = (o ≡ none) ⊎ (o ≡ some [])

append_found-NoValues :
    {A : Type 0} (xs ys : Option (List A))
    → NoValues xs
    → NoValues ys
    → NoValues (append_found xs ys)
append_found-NoValues xs ys (inl h) k = rw h (inl refl)
append_found-NoValues xs ys (inr h) (inl k) = rw (h, k) (inl refl)
append_found-NoValues xs ys (inr h) (inr k) = rw (h, k) (inr refl)

collect-NoValues :
    {A B : Type 0} (f : B → Option (List A)) (xs : List B)
    → All (λ b. NoValues (f b)) xs
    → NoValues (collect (map f xs))
collect-NoValues f [] h = inr refl
collect-NoValues f (x ∷ xs) h =
    append_found-NoValues (f x) (collect (map f xs)) h.0 (collect-NoValues f xs h.1)

All-map :
    {B : Type 0} (P Q : B → Type 0) (xs : List B) → ((b : B) → P b → Q b) → All P xs → All Q xs
All-map P Q [] f h = tt
All-map P Q (x ∷ xs) f h = (f x h.0, All-map P Q xs f h.1)

All-any : {B : Type 0} (P : B → Type 0) (xs : List B) → ((b : B) → P b) → All P xs
All-any P [] f = tt
All-any P (x ∷ xs) f = (f x, All-any P xs f)

values-NoValues : (r : Row) → IsTableRow r → NoValues (values r)
values-NoValues (dict_row d) h = elim h [ ]
values-NoValues (table_row cells) h = inl refl

value_at-NoValues : (header : Text) (r : Row) → IsTableRow r → NoValues (value_at header r)
value_at-NoValues header (dict_row d) h = elim h [ ]
value_at-NoValues header (table_row cells) h = inl refl

row_counts_of-NoValues : (rows : List Row) → All IsTableRow rows → NoValues (row_counts_of rows)
row_counts_of-NoValues [] h = inr refl
row_counts_of-NoValues (dict_row d ∷ rows) h = elim h.0 [ ]
row_counts_of-NoValues (table_row cells ∷ rows) h = inl refl

-- Tables as the runner makes them.
abbrev pub OfTableRows : List Table → Type 0
OfTableRows tables = All (λ t. All IsTableRow t.rows) tables

all_values-NoValues : (tables : List Table) → OfTableRows tables → NoValues (all_values tables)
all_values-NoValues tables h = collect-NoValues _ tables (
    All-map _ _ tables
      (λ t k. collect-NoValues values t.rows (All-map _ _ t.rows values-NoValues k)) h)

column_values-NoValues :
    (triggers : List Text) (tables : List Table)
    → OfTableRows tables
    → NoValues (column_values triggers tables)
column_values-NoValues triggers tables h = collect-NoValues _ tables (
    All-map _ _ tables
      (λ t k. collect-NoValues _ (select (has_trigger triggers) t.headers) (
        All-any _ _ (λ header.
          collect-NoValues (value_at header) t.rows
            (All-map _ _ t.rows (value_at-NoValues header) k))))
      h)

row_counts-NoValues : (tables : List Table) → OfTableRows tables → NoValues (row_counts tables)
row_counts-NoValues tables h =
    collect-NoValues _ tables (All-map _ _ tables (λ t. row_counts_of-NoValues t.rows) h)

passed_or-NoValues :
    (test : List Text → Bool) (o : Option (List Text))
    → test [] ≡ true
    → NoValues o
    → passed_or test o ≡ true
passed_or-NoValues test o t (inl h) = rw h refl
passed_or-NoValues test o t (inr h) = rw h t

is_uniform-NoValues : (o : Option (List ℕ)) → NoValues o → is_uniform o ≡ true
is_uniform-NoValues o (inl h) = rw h refl
is_uniform-NoValues o (inr h) = rw h refl

abbrev passes : String → CheckResult
passes name = record { name = name; passed = true }

cell_check :
    (tables : List Table)
    → OfTableRows tables
    → check_cell_fragmentation tables ≡ passes "cell_fragmentation"
unfolding check_cell_fragmentation
cell_check tables h =
    ap (λ b. record { name = "cell_fragmentation"; passed = b })
      (passed_or-NoValues _ (all_values tables) refl (all_values-NoValues tables h))

row_check :
    (tables : List Table)
    → OfTableRows tables
    → check_row_uniformity tables ≡ passes "row_uniformity"
unfolding check_row_uniformity
row_check tables h =
    ap (λ b. record { name = "row_uniformity"; passed = b })
      (is_uniform-NoValues (row_counts tables) (row_counts-NoValues tables h))

header_check :
    (tables : List Table)
    → check_header_fragmentation tables
      ≡ record { name = "header_fragmentation"; passed = not (is_fragmented tables) }
unfolding check_header_fragmentation
header_check tables = refl

module _ (is_valid_date is_valid_number : Text → Bool) where
  date_check :
      (tables : List Table)
      → OfTableRows tables
      → check_date_column_incoherence is_valid_date is_valid_number tables
        ≡ passes "date_column_incoherence"
  unfolding check_date_column_incoherence
  date_check tables h =
      ap (λ b. record { name = "date_column_incoherence"; passed = b })
        (passed_or-NoValues _ (column_values date_column_triggers tables) refl
          (column_values-NoValues date_column_triggers tables h))

  number_check :
      (tables : List Table)
      → OfTableRows tables
      → check_numeric_column_incoherence is_valid_date is_valid_number tables
        ≡ passes "numeric_column_incoherence"
  unfolding check_numeric_column_incoherence
  number_check tables h =
      ap (λ b. record { name = "numeric_column_incoherence"; passed = b })
        (passed_or-NoValues _ (column_values numeric_column_triggers tables) refl
          (column_values-NoValues numeric_column_triggers tables h))

  -- Of tables whose rows are all TableRows, which are what the runner scores, nothing but the
  -- headers is checked: the one check that can fail is that of the headers, and it is failed
  -- exactly if a table has a row and a header has a word that is a part of a keyword.
  pub score_tables_blind :
      (tables : List Table)
      → OfTableRows tables
      → (score_tables is_valid_date is_valid_number tables).failed_checks ≡ (
          if any (λ t. ltb 0 (length t.rows)) tables && is_fragmented tables
          then "header_fragmentation" ∷ []
          else [])
  unfolding score_tables
  score_tables_blind tables h = elim (Bool-cases (any (λ t. ltb 0 (length t.rows)) tables)) [
    | inr e ↦ rw e refl
    | inl e ↦
        rw
          (
            e,
            cell_check tables h,
            header_check tables,
            date_check tables h,
            row_check tables h,
            number_check tables h,
          )
          (elim (Bool-cases (is_fragmented tables)) [ inl f ↦ rw f refl | inr f ↦ rw f refl ])
  ]
