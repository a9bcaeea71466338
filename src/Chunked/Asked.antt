-- ===== src/Chunked/Asked.antt =====
-- Every field that tier 1 is to extract is asked for once (select_target_pages of
-- pdf_ingestion/pipeline/vlm/chunked_extractor.py).
use smart_pdf_extractor.Prelude.{
  ℕ, ◌+◌, ◌<◌, ◌≡◌, refl, ap, String, List, [], ◌∷◌, ◌++◌, any, nat_beq_iff, if◌then◌else◌, ◌==◌,
  ==_iff, string_eq, count_if, count_if-append, is_some, arith,
}
use smart_pdf_extractor.Dict
use smart_pdf_extractor.Dict.{Dict, lookup-put}
use smart_pdf_extractor.Chunked.Windows.{PageWindow}
use smart_pdf_extractor.Chunked.Targets.{
  Group, field_pages, field_page_mapping, mapped_pages, add_field, group_fields, windows_of,
  select_target_pages,
}

-- How often a field stands in a list.
abbrev pub times : String → List String → ℕ
times f fs = count_if (λ g. g == f) fs

abbrev pub asked : List PageWindow → List String
asked [] = []
asked (w ∷ windows) = w.target_fields ++ asked windows

abbrev grouped : List Group → List String
grouped [] = []
grouped ((ps, fs) ∷ groups) = fs ++ grouped groups

abbrev keys : Dict String (List ℕ) → List String
keys [] = []
keys ((f, pages) ∷ d) = f ∷ keys d

add_field-times :
    (f g : String) (pages : List ℕ) (groups : List Group)
    → times f (grouped (add_field g pages groups)) ≡ times f (g ∷ grouped groups)
add_field-times f g pages [] = refl
add_field-times f g pages ((ps, fs) ∷ groups) = ground (
  arith,
  add_field-times f g pages groups,
  count_if-append (λ h. h == f) (fs ++ g ∷ []) (grouped groups),
  count_if-append (λ h. h == f) fs (g ∷ []),
  count_if-append (λ h. h == f) fs (grouped groups),
  count_if-append (λ h. h == f) fs (grouped (add_field g pages groups)),
)

group_fields-times :
    (f : String) (d : Dict String (List ℕ)) (groups : List Group)
    → times f (grouped (group_fields d groups)) ≡ times f (keys d) + times f (grouped groups)
unfolding group_fields
group_fields-times f [] groups = omega arith
group_fields-times f ((g, pages) ∷ d) groups =
    omega
      (arith, group_fields-times f d (add_field g pages groups), add_field-times f g pages groups)

windows_of-asked :
    (total : ℕ) (groups : List Group) → asked (windows_of total groups) ≡ grouped groups
windows_of-asked total [] = refl
windows_of-asked total (([], fs) ∷ groups) = ap (λ gs. fs ++ gs) (windows_of-asked total groups)
windows_of-asked total (((p ∷ ps), fs) ∷ groups) =
    ap (λ gs. fs ++ gs) (windows_of-asked total groups)

keys-put :
    (f g : String) (pages : List ℕ) (d : Dict String (List ℕ))
    → times f (keys (Dict.put g pages d))
      ≡ (if is_some (Dict.lookup g d) then times f (keys d) else times f (g ∷ keys d))
unfolding Dict.put Dict.lookup
keys-put f g pages [] = refl
keys-put f g pages ((h, ps) ∷ d) = ground (arith, keys-put f g pages d)

-- Each key stands once.
abbrev StandsOnce : String → Dict String (List ℕ) → Type 0
StandsOnce f d = times f (keys d) ≡ (if is_some (Dict.lookup f d) then 1 else 0)

put-StandsOnce :
    (f g : String) (pages : List ℕ) (d : Dict String (List ℕ))
    → StandsOnce f d
    → StandsOnce f (Dict.put g pages d)
put-StandsOnce f g pages d h =
    ground (arith, h, keys-put f g pages d, lookup-put g f pages d, ==_iff g f)

field_pages-times :
    (f : String) (total : ℕ) (fields : List String) (d : Dict String (List ℕ))
    → StandsOnce f d
    → times f (keys (field_pages total fields d))
      ≡ (if is_some (Dict.lookup f d) then 1 else if any (λ g. g == f) fields then 1 else 0)
unfolding field_pages
field_pages-times f total [] d h = h
field_pages-times f total (g ∷ fields) d h =
    let pages = mapped_pages (Dict.lookup g field_page_mapping) total in
    ground (
      arith,
      field_pages-times f total fields (Dict.put g pages d) (put-StandsOnce f g pages d h),
      lookup-put g f pages d,
    )

-- In a document that has a page, every abstained field is a target of exactly one window, however
-- often it was listed, and no other field is a target.
pub select_target_pages_once :
    (f : String) (abstained_fields : List String) (total_pages : ℕ)
    → 0 < total_pages
    → times f (asked (select_target_pages abstained_fields total_pages))
      ≡ (if any (λ g. g == f) abstained_fields then 1 else 0)
unfolding select_target_pages Dict.lookup
select_target_pages_once f [] total z = refl
select_target_pages_once f (g ∷ fields) total z =
    let d = field_pages total (g ∷ fields) [] in
    ground (
      arith,
      z,
      nat_beq_iff total 0,
      ap (times f) (windows_of-asked total (group_fields d [])),
      group_fields-times f d [],
      field_pages-times f total (g ∷ fields) [] refl,
    )
