-- ===== src/Runner/Accounts.antt =====
-- One account for each account number (process_document of pdf_ingestion/pipeline/runner.py, the
-- accounts after phase 3).
use smart_pdf_extractor.Prelude.{
  ℕ, zero, pos, String, Bool, true, false, ◌||◌, not, ◌&&◌, Option, none, some, List, [], ◌∷◌, ◌++◌,
  ltb, nat_beq, nat_beq_iff, ◌==◌, string_eq, if◌then◌else◌, length, arith, ◌↔◌, ◌≡◌, ==_iff,
  SameTest,
}
use smart_pdf_extractor.Dict
use smart_pdf_extractor.Dict.{Dict}
use smart_pdf_extractor.Runner.Merging.{
  Entry, nothing, text, number, Account, FieldValue, accounts, Field,
}

-- The account number or the IBAN, or f"unidentified_{n}", which is taken to be no account number.
pub data AccountKey : Type 0 where
  identified : String → AccountKey
  unidentified : ℕ → AccountKey

abbrev pub same_key : AccountKey → AccountKey → Bool
same_key (identified s) (identified t) = s == t
same_key (unidentified m) (unidentified n) = nat_beq m n
same_key _ _ = false

pub same_key_iff : (k l : AccountKey) → (same_key k l ≡ true) ↔ (k ≡ l)
same_key_iff (identified s) (identified t) = ground (arith, ==_iff s t)
same_key_iff (identified s) (unidentified n) = ground arith
same_key_iff (unidentified m) (identified t) = ground arith
same_key_iff (unidentified m) (unidentified n) = ground (arith, nat_beq_iff m n)

instance abbrev pub key_eq : SameTest AccountKey
key_eq = record { same = same_key; same_iff = same_key_iff }

-- `acct.get(name)`, if it is a text that is not empty. An account number is a text.
abbrev pub non_empty : Option Entry → Option String
non_empty (some (text s)) = if s == "" then none else some s
non_empty found = none

abbrev pub first_key : Option String → Option String → Option AccountKey
first_key (some s) iban = some (identified s)
first_key none (some s) = some (identified s)
first_key none none = none

unfoldable pub key_of : Account → Option AccountKey
key_of a =
    first_key (non_empty (Dict.lookup "account_number" a.scalars))
      (non_empty (Dict.lookup "iban" a.scalars))

abbrev pub is_empty {ℓ} : {A : Type ℓ} → List A → Bool
is_empty [] = true
is_empty (x ∷ xs) = false

-- The key to file an account under, unless it is skipped.
abbrev pub filed_under : Option AccountKey → Account → ℕ → Option AccountKey
filed_under (some k) a n = some k
filed_under none a n =
    if is_empty a.transactions && is_empty a.tables then none else some (unidentified n)

-- Entries that are missing, None, empty or zero are filled in.
abbrev pub is_missing : Option Entry → Bool
is_missing none = true
is_missing (some nothing) = true
is_missing (some (text s)) = s == ""
is_missing (some (number (pos zero))) = true
is_missing (some (number n)) = false

abbrev pub is_nothing : Entry → Bool
is_nothing nothing = true
is_nothing v = false

abbrev pub fill_one : String → Entry → Dict String Entry → Dict String Entry
fill_one name v existing =
    if not (is_nothing v) && is_missing (Dict.lookup name existing)
    then Dict.put name v existing
    else existing

unfoldable pub fill_scalars : Dict String Entry → Dict String Entry → Dict String Entry
fill_scalars [] existing = existing
fill_scalars ((name, v) ∷ entries) existing = fill_scalars entries (fill_one name v existing)

abbrev pub merged_with : Account → Account → Account
merged_with existing a = record {
  transactions = existing.transactions ++ a.transactions;
  tables = existing.tables ++ a.tables;
  scalars = fill_scalars a.scalars existing.scalars;
}

abbrev pub merge_or_add : Option Account → Account → Account
merge_or_add none a = a
merge_or_add (some existing) a = merged_with existing a

abbrev pub file_account :
    Option AccountKey → Account → Dict AccountKey Account → Dict AccountKey Account
file_account none a merged = merged
file_account (some k) a merged = Dict.put k (merge_or_add (Dict.lookup k merged) a) merged

-- The loop over the accounts.
unfoldable pub merge_accounts :
    List (Option Account) → Dict AccountKey Account → Dict AccountKey Account
unfolding key_of
merge_accounts [] merged = merged
merge_accounts (none ∷ raw) merged = merge_accounts raw merged
merge_accounts (some a ∷ raw) merged =
    merge_accounts raw (file_account (filed_under (key_of a) a (length merged)) a merged)

-- `acct.get(name) is not None`
abbrev pub has_entry : Option Entry → Bool
has_entry none = false
has_entry (some v) = not (is_nothing v)

abbrev pub is_useful : Account → Bool
is_useful a =
    not (is_empty a.transactions)
    || not (is_empty a.tables)
    || has_entry (Dict.lookup "opening_balance" a.scalars)
    || has_entry (Dict.lookup "closing_balance" a.scalars)

abbrev pub useful_accounts : Dict AccountKey Account → List (Option Account)
useful_accounts [] = []
useful_accounts ((k, a) ∷ merged) =
    let rest = useful_accounts merged in if is_useful a then some a ∷ rest else rest

unfoldable pub deduplicate : List (Option Account) → List (Option Account)
unfolding merge_accounts
deduplicate raw = if ltb 1 (length raw) then useful_accounts (merge_accounts raw []) else raw

-- The field with its accounts merged, where there are several.
abbrev pub deduplicated : FieldValue → FieldValue
deduplicated (accounts raw) = accounts (deduplicate raw)
deduplicated v = v

abbrev pub put_deduplicated : Option Field → Dict String Field → Dict String Field
put_deduplicated none all_fields = all_fields
put_deduplicated (some f) all_fields =
    Dict.put "accounts" (record f { value = deduplicated f.value }) all_fields

unfoldable pub deduplicate_accounts : Dict String Field → Dict String Field
deduplicate_accounts all_fields = put_deduplicated (Dict.lookup "accounts" all_fields) all_fields
