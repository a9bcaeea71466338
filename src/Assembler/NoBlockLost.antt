-- ===== src/Assembler/NoBlockLost.antt =====
-- The reading order rearranges the blocks of a page (_xy_cut_order of
-- pdf_ingestion/pipeline/assembler.py).
use smart_pdf_extractor.Prelude.{
  ℕ, zero, suc, ◌+◌, ◌<◌, ◌≤◌, ◌≡◌, refl, ap, sym, ℤ, ◌+ℤ◌, ltb_ℤ, Bool, true, not, Option, none,
  some, List, [], ◌∷◌, ◌++◌, leb, length, select, count_if, count_if-append, All, arith, is_some,
  Option-cases, Bool-cases, inl, inr, ◌∙◌,
}
use smart_pdf_extractor.Assembler.Documents.{Block}
use smart_pdf_extractor.Assembler.ReadingOrder.{
  Box, box_of, insert_sorted, sorted, halves, both, corner, key_less, Keyed, keyed, values,
  sort_keyed, recurse_or, sort_blocks, join, find_horizontal_split, find_vertical_split,
  xy_cut_recursive, xy_cut_order,
}

module _ {ℓ} {A : Type ℓ} (less : A → A → Bool) (p : A → Bool) where
  count_if-insert_sorted :
      (a : A) (xs : List A) → count_if p (insert_sorted less a xs) ≡ count_if p (a ∷ xs)
  unfolding insert_sorted
  count_if-insert_sorted a [] = refl
  count_if-insert_sorted a (b ∷ xs) = ground (arith, count_if-insert_sorted a xs)

  pub count_if-sorted : (xs : List A) → count_if p (sorted less xs) ≡ count_if p xs
  unfolding sorted
  count_if-sorted [] = refl
  count_if-sorted (a ∷ xs) =
      ground (arith, count_if-insert_sorted a (sorted less xs), count_if-sorted xs)

module _ {ℓ} {A : Type ℓ} (q : A → Bool) where
  count_if-halves :
      (p : A → Bool) (xs : List A)
      → count_if p (select q xs) + count_if p (select (λ a. not (q a)) xs) ≡ count_if p xs
  count_if-halves p [] = refl
  count_if-halves p (x ∷ xs) = ground (arith, count_if-halves p xs)

  length-halves :
      (xs : List A) → length (select q xs) + length (select (λ a. not (q a)) xs) ≡ length xs
  length-halves [] = refl
  length-halves (x ∷ xs) = ground (arith, length-halves xs)

  All-select {κ} : (P : A → Type κ) (xs : List A) → All P xs → All P (select q xs)
  All-select P [] h = tt
  All-select P (x ∷ xs) h = elim (Bool-cases (q x)) [
    | inl e ↦ rw e (h.0, All-select P xs h.1)
    | inr e ↦ rw e (All-select P xs h.1)
  ]

-- A box that is there has two numbers at least.
abbrev pub HasCorner : Block → Type 0
HasCorner b = is_some (corner b.bbox) ≡ true

-- The answer holds the blocks, as often.
abbrev pub Rearranges : List Block → Option (List Block) → Type 0
Rearranges blocks answer =
    (order : List Block) × (answer ≡ some order)
    × ((p : Block → Bool) → count_if p order ≡ count_if p blocks)

keyed-values :
    (blocks : List Block)
    → All HasCorner blocks
    → (pairs : Keyed) × (keyed blocks ≡ some pairs) × (values pairs ≡ blocks)
keyed-values [] h = ([], refl, refl)
keyed-values (b ∷ blocks) h = elim (Option-cases (corner b.bbox)) [
  | inl e ↦ ground (arith, h.0, e)
  | inr (k, e) ↦
      let (pairs, same, back) = keyed-values blocks h.1 in
      ((k, b) ∷ pairs, rw (e, same), ap (λ bs. b ∷ bs) back)
]

count_if-values :
    (p : Block → Bool) (pairs : Keyed) → count_if p (values pairs) ≡ count_if (λ kb. p kb.1) pairs
count_if-values p [] = refl
count_if-values p ((k, b) ∷ pairs) = ground (arith, count_if-values p pairs)

sort_blocks-Rearranges :
    (blocks : List Block) → All HasCorner blocks → Rearranges blocks (sort_blocks blocks)
unfolding sort_blocks
sort_blocks-Rearranges blocks h =
    let (pairs, same, back) = keyed-values blocks h in
    let less = λ (k l : (ℤ × ℤ) × Block). key_less k.0 l.0 in
    (
      values (sorted less pairs),
      ap sort_keyed same,
      λ p.
          count_if-values p (sorted less pairs)
          ∙ count_if-sorted less (λ kb. p kb.1) pairs
          ∙ sym (count_if-values p pairs)
          ∙ ap (count_if p) back,
    )

pub join-Rearranges :
    (xs ys blocks : List Block) (o o' : Option (List Block))
    → ((p : Block → Bool) → count_if p xs + count_if p ys ≡ count_if p blocks)
    → Rearranges xs o
    → Rearranges ys o'
    → Rearranges blocks (join o o')
join-Rearranges xs ys blocks o o' h (us, e, f) (vs, e', f') =
    (us ++ vs, rw (e, e'), λ p. omega (arith, count_if-append p us vs, h p, f p, f' p))

-- What two halves have in common with the whole.
record Halved (blocks xs ys : List Block) : Type 0 where
  left_shorter : length xs < length blocks
  right_shorter : length ys < length blocks
  left_some : 0 < length xs
  right_some : 0 < length ys
  left_corners : All HasCorner xs
  right_corners : All HasCorner ys
  counts : (p : Block → Bool) → count_if p xs + count_if p ys ≡ count_if p blocks

both-some :
    (us vs xs ys : List Block)
    → both us vs ≡ some (xs, ys)
    → (us ≡ xs) × (vs ≡ ys) × (0 < length us) × (0 < length vs)
both-some [] vs xs ys h = cc
both-some (u ∷ us) [] xs ys h = cc
both-some (u ∷ us) (v ∷ vs) xs ys h = ground (arith, h)

halves-Halved :
    (start : Box → ℤ) (split : Option ℤ) (blocks xs ys : List Block)
    → All HasCorner blocks
    → halves start split blocks ≡ some (xs, ys)
    → Halved blocks xs ys
halves-Halved start none blocks xs ys h e = cc
halves-Halved start (some twice) blocks xs ys h e =
    let before = λ (b : Block). ltb_ℤ (start (box_of b.bbox) +ℤ start (box_of b.bbox)) twice in
    let (ex, ey, nx, ny) =
      both-some (select before blocks) (select (λ b. not (before b)) blocks) xs ys e in
    let n = length-halves before blocks in
    rw (← ex, ← ey)
      (record {
        left_shorter = omega (arith, nx, ny, n);
        right_shorter = omega (arith, nx, ny, n);
        left_some = omega (arith, nx);
        right_some = omega (arith, ny);
        left_corners = All-select before HasCorner blocks h;
        right_corners = All-select (λ b. not (before b)) HasCorner blocks h;
        counts = λ p. count_if-halves before p blocks;
      })

recurse_or-Rearranges :
    (cut : List Block → Option (List Block)) (fuel : ℕ) (start : Box → ℤ) (split : Option ℤ)
    (blocks : List Block) (otherwise : Option (List Block))
    (found : Option (List Block × List Block))
    → ((xs : List Block)
        → All HasCorner xs
        → length xs ≤ fuel
        → 0 < length xs
        → Rearranges xs (cut xs))
    → All HasCorner blocks
    → length blocks ≤ suc fuel
    → halves start split blocks ≡ found
    → Rearranges blocks otherwise
    → Rearranges blocks (recurse_or cut found otherwise)
recurse_or-Rearranges cut fuel start split blocks otherwise none ih h l e o = o
recurse_or-Rearranges cut fuel start split blocks otherwise (some (xs, ys)) ih h l e o =
    let d = halves-Halved start split blocks xs ys h e in
    join-Rearranges xs ys blocks (cut xs) (cut ys) d.counts
      (ih xs d.left_corners (omega (arith, l, d.left_shorter)) d.left_some)
      (ih ys d.right_corners (omega (arith, l, d.right_shorter)) d.right_some)

same-Rearranges : (blocks : List Block) → Rearranges blocks (some blocks)
same-Rearranges blocks = (blocks, refl, λ p. refl)

module _ (unit : ℕ) where
  xy_cut_recursive-Rearranges :
      (fuel : ℕ) (blocks : List Block)
      → All HasCorner blocks
      → length blocks ≤ fuel
      → 0 < length blocks
      → Rearranges blocks (xy_cut_recursive unit fuel blocks)
  unfolding xy_cut_recursive
  xy_cut_recursive-Rearranges zero blocks h l z = absurd (omega (arith, l, z))
  xy_cut_recursive-Rearranges (suc fuel) blocks h l z = elim (Bool-cases (leb (length blocks) 1)) [
    | inl e ↦ rw e (same-Rearranges blocks)
    | inr e ↦
        let ih = xy_cut_recursive-Rearranges fuel in
        rw e (
          recurse_or-Rearranges (xy_cut_recursive unit fuel) fuel (λ p. p.y0)
            (find_horizontal_split unit blocks) blocks _ _ ih h l refl
            (recurse_or-Rearranges (xy_cut_recursive unit fuel) fuel (λ p. p.x0)
              (find_vertical_split unit blocks) blocks _ _ ih h l refl
              (sort_blocks-Rearranges blocks h)))
  ]

  -- Where every box that is there has two numbers at least, the order of a page's blocks is found,
  -- however they lie, and holds each block as often as the page does.
  pub xy_cut_order-Rearranges :
      (blocks : List Block) → All HasCorner blocks → Rearranges blocks (xy_cut_order unit blocks)
  unfolding xy_cut_order
  xy_cut_order-Rearranges blocks h = elim (Bool-cases (leb (length blocks) 1)) [
    | inl e ↦ rw e (same-Rearranges blocks)
    | inr e ↦
        rw e
          (xy_cut_recursive-Rearranges (length blocks) blocks h (omega arith) (ground (arith, e)))
  ]
