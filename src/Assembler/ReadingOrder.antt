-- ===== src/Assembler/ReadingOrder.antt =====
-- The reading order of a page's text blocks (_xy_cut_order, _xy_cut_recursive,
-- _find_horizontal_split and _find_vertical_split of pdf_ingestion/pipeline/assembler.py).
use smart_pdf_extractor.Prelude.{
  ℕ, zero, suc, ◌*◌, ℤ, pos, ◌+ℤ◌, ◌-ℤ◌, ltb_ℤ, Bool, not, ◌&&◌, ◌||◌, Option, none, some, List, [],
  ◌∷◌, ◌++◌, map, leb, if◌then◌else◌, length, select,
}
use smart_pdf_extractor.Assembler.Documents.{Block}

-- (x0, y0, x1, y1)
pub record Box : Type 0 where
  pub x0 : ℤ
  pub y0 : ℤ
  pub x1 : ℤ
  pub y1 : ℤ

abbrev pub box_of : Option (List ℤ) → Box
box_of (some (a ∷ b ∷ c ∷ d ∷ rest)) = record { x0 = a; y0 = b; x1 = c; y1 = d }
box_of other = record { x0 = pos 0; y0 = pos 0; x1 = pos 0; y1 = pos 0 }

-- Python's stable `sorted`, by a strict order.
module _ {ℓ} {A : Type ℓ} (less : A → A → Bool) where
  unfoldable pub insert_sorted : A → List A → List A
  insert_sorted a [] = a ∷ []
  insert_sorted a (b ∷ xs) =
      let later = b ∷ insert_sorted a xs in if less b a then later else a ∷ b ∷ xs

  unfoldable pub sorted : List A → List A
  unfolding insert_sorted
  sorted [] = []
  sorted (a ∷ xs) = insert_sorted a (sorted xs)

-- The largest gap between the end of a box and the start of the next one, with twice its middle.
abbrev pub largest_gap : (Box → ℤ) → (Box → ℤ) → Box → List Box → ℤ → Option ℤ → ℤ × Option ℤ
largest_gap start stop current [] best_gap best_split = (best_gap, best_split)
largest_gap start stop current (next ∷ boxes) best_gap best_split =
    let gap = start next -ℤ stop current in
    let wider = largest_gap start stop next boxes gap (some (stop current +ℤ start next)) in
    let same = largest_gap start stop next boxes best_gap best_split in
    if ltb_ℤ best_gap gap then wider else same

abbrev pub split_wider_than : ℤ → ℤ × Option ℤ → Option ℤ
split_wider_than least (gap, split) = if ltb_ℤ least gap then split else none

abbrev pub split_sorted : (Box → ℤ) → (Box → ℤ) → ℤ → List Box → Option ℤ
split_sorted start stop least [] = none
split_sorted start stop least (current ∷ boxes) =
    split_wider_than least (largest_gap start stop current boxes (pos 0) none)

abbrev pub find_split : (Box → ℤ) → (Box → ℤ) → ℤ → List Box → Option ℤ
find_split start stop least boxes =
    split_sorted start stop least (sorted (λ p q. ltb_ℤ (start p) (start q)) boxes)

-- The blocks that start before the split, and the others, if there are both.
abbrev pub both : List Block → List Block → Option (List Block × List Block)
both [] ys = none
both (x ∷ xs) [] = none
both (x ∷ xs) (y ∷ ys) = some (x ∷ xs, y ∷ ys)

abbrev pub halves : (Box → ℤ) → Option ℤ → List Block → Option (List Block × List Block)
halves start none blocks = none
halves start (some twice) blocks =
    let before = λ (b : Block). ltb_ℤ (start (box_of b.bbox) +ℤ start (box_of b.bbox)) twice in
    both (select before blocks) (select (λ b. not (before b)) blocks)

-- The key of the last resort: (y0, x0). A box of fewer than two numbers raises IndexError.
abbrev pub corner : Option (List ℤ) → Option (ℤ × ℤ)
corner none = some (pos 0, pos 0)
corner (some (x ∷ y ∷ rest)) = some (y, x)
corner (some short) = none

abbrev pub key_less : ℤ × ℤ → ℤ × ℤ → Bool
key_less (y, x) (y', x') = ltb_ℤ y y' || (not (ltb_ℤ y' y) && ltb_ℤ x x')

abbrev pub Keyed : Type 0
Keyed = List ((ℤ × ℤ) × Block)

abbrev pub with_key : Option (ℤ × ℤ) → Block → Option Keyed → Option Keyed
with_key none b pairs = none
with_key (some k) b none = none
with_key (some k) b (some pairs) = some ((k, b) ∷ pairs)

abbrev pub keyed : List Block → Option Keyed
keyed [] = some []
keyed (b ∷ blocks) = with_key (corner b.bbox) b (keyed blocks)

abbrev pub values : Keyed → List Block
values [] = []
values ((k, b) ∷ pairs) = b ∷ values pairs

abbrev pub sort_keyed : Option Keyed → Option (List Block)
sort_keyed none = none
sort_keyed (some pairs) = some (values (sorted (λ p q. key_less p.0 q.0) pairs))

unfoldable pub sort_blocks : List Block → Option (List Block)
sort_blocks blocks = sort_keyed (keyed blocks)

abbrev pub join : Option (List Block) → Option (List Block) → Option (List Block)
join (some xs) (some ys) = some (xs ++ ys)
join (some xs) none = none
join none o = none

-- Two halves are ordered on their own.
abbrev pub recurse_or :
    (List Block → Option (List Block))
    → Option (List Block × List Block)
    → Option (List Block)
    → Option (List Block)
recurse_or cut none otherwise = otherwise
recurse_or cut (some (xs, ys)) otherwise = join (cut xs) (cut ys)

-- `unit` is the number of parts in a point. `none` is an IndexError, or that the fuel ran out.
module _ (unit : ℕ) where
  unfoldable pub find_horizontal_split : List Block → Option ℤ
  find_horizontal_split blocks =
      find_split (λ p. p.y0) (λ p. p.y1) (pos (5 * unit)) (map (λ b. box_of b.bbox) blocks)

  unfoldable pub find_vertical_split : List Block → Option ℤ
  find_vertical_split blocks =
      find_split (λ p. p.x0) (λ p. p.x1) (pos (20 * unit)) (map (λ b. box_of b.bbox) blocks)

  unfoldable pub xy_cut_recursive : ℕ → List Block → Option (List Block)
  xy_cut_recursive zero blocks = none
  xy_cut_recursive (suc fuel) blocks =
      if leb (length blocks) 1
      then some blocks
      else recurse_or (xy_cut_recursive fuel)
          (halves (λ p. p.y0) (find_horizontal_split blocks) blocks)
          (recurse_or (xy_cut_recursive fuel)
            (halves (λ p. p.x0) (find_vertical_split blocks) blocks) (sort_blocks blocks))

  unfoldable pub xy_cut_order : List Block → Option (List Block)
  xy_cut_order blocks =
      if leb (length blocks) 1 then some blocks else xy_cut_recursive (length blocks) blocks
