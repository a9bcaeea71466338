-- ===== src/Chunked/Targets.antt =====
-- The pages that tier 1 asks for (select_target_pages of
-- pdf_ingestion/pipeline/vlm/chunked_extractor.py). A set of page indices is a list of them.
use smart_pdf_extractor.Prelude.{
  ℕ, zero, suc, ◌+◌, ◌-◌, String, Bool, true, false, ◌&&◌, Option, none, some, List, [], ◌∷◌, ◌++◌,
  any, min, max, ltb, leb, nat_beq, if◌then◌else◌, string_eq,
}
use smart_pdf_extractor.Dict
use smart_pdf_extractor.Dict.{Dict, lookup-put}
use smart_pdf_extractor.Chunked.Windows.{PageWindow}

pub data Strategy : Type 0 where
  first last last_2 : Strategy
  page : ℕ → Strategy

-- FIELD_PAGE_MAPPING
abbrev pub field_page_mapping : Dict String (Strategy × Strategy)
field_page_mapping =
    ("institution", (first, first))
    ∷ ("client_name", (first, first))
    ∷ ("statement_date", (first, page 2))
    ∷ ("period_from", (first, page 2))
    ∷ ("period_to", (first, page 2))
    ∷ ("account_number", (first, page 2))
    ∷ ("iban", (first, page 2))
    ∷ ("opening_balance", (first, page 3))
    ∷ ("closing_balance", (last_2, last))
    ∷ ("currency", (first, page 3))
    ∷ []

unfoldable pub resolve_page_index : Strategy → ℕ → ℕ
resolve_page_index first total = 0
resolve_page_index last total = total - 1
resolve_page_index last_2 total = total - 2
resolve_page_index (page n) total = min (n - 1) (total - 1)

-- `range(start, start + n)`
abbrev pub range_from : ℕ → ℕ → List ℕ
range_from start zero = []
range_from start (suc n) = start ∷ range_from (start + 1) n

abbrev pub mapped_pages : Option (Strategy × Strategy) → ℕ → List ℕ
mapped_pages none total = 0 ∷ 1 ∷ min 2 (total - 1) ∷ []
mapped_pages (some (s, e)) total =
    let start = resolve_page_index s total in
    range_from start ((resolve_page_index e total + 1) - start)

-- The pages of each field, in a dict: a repeated field stands once.
unfoldable pub field_pages : ℕ → List String → Dict String (List ℕ) → Dict String (List ℕ)
field_pages total [] d = d
field_pages total (f ∷ fields) d =
    field_pages total fields (Dict.put f (mapped_pages (Dict.lookup f field_page_mapping) total) d)

abbrev pub Group : Type 0
Group = List ℕ × List String

abbrev pub overlaps : List ℕ → List ℕ → Bool
overlaps ps qs = any (λ p. any (λ q. nat_beq p q) qs) ps

-- The first group with a page in common takes the field, or else the field founds a group.
abbrev pub add_field : String → List ℕ → List Group → List Group
add_field f pages [] = (pages, f ∷ []) ∷ []
add_field f pages ((ps, fs) ∷ groups) =
    let later = add_field f pages groups in
    if overlaps ps pages then (ps ++ pages, fs ++ f ∷ []) ∷ groups else (ps, fs) ∷ later

unfoldable pub group_fields : Dict String (List ℕ) → List Group → List Group
group_fields [] groups = groups
group_fields ((f, pages) ∷ d) groups = group_fields d (add_field f pages groups)

abbrev pub least : ℕ → List ℕ → ℕ
least p [] = p
least p (q ∷ qs) = least (min p q) qs

abbrev pub greatest : ℕ → List ℕ → ℕ
greatest p [] = p
greatest p (q ∷ qs) = greatest (max p q) qs

-- At least two pages where the document has them, and at most five. Every group has a page, so the first clause is never used.
abbrev pub window_of : ℕ → Group → PageWindow
window_of total ([], fs) = record {
  start_page = 1;
  end_page = 1;
  target_fields = fs;
  page_texts = [];
}
window_of total ((p ∷ ps), fs) =
    let start = least p ps in
    let stop = greatest p ps in
    let wide = if ltb (stop - start) 1 && ltb (stop + 1) total then start + 1 else stop in
    let capped = if leb 5 (wide - start) then start + 4 else wide in
    record { start_page = start + 1; end_page = capped + 1; target_fields = fs; page_texts = [] }

abbrev pub windows_of : ℕ → List Group → List PageWindow
windows_of total [] = []
windows_of total (g ∷ groups) = window_of total g ∷ windows_of total groups

abbrev pub is_nil {ℓ} : {A : Type ℓ} → List A → Bool
is_nil [] = true
is_nil (x ∷ xs) = false

unfoldable pub select_target_pages : List String → ℕ → List PageWindow
unfolding field_pages group_fields
select_target_pages abstained_fields total_pages =
    if is_nil abstained_fields
    then []
    else if nat_beq total_pages 0
    then []
    else windows_of total_pages (group_fields (field_pages total_pages abstained_fields []) [])
