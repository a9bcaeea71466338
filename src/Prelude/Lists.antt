-- ===== src/Prelude/Lists.antt =====
-- Lists measured and indexed by native numbers, under the library's names.
use Prim.Native.Nat.{ℕ, zero, suc, ◌+◌, ◌<◌, ◌≤◌}
use mathlib.Core.Path.{◌≡◌, subst, ap, refl, ◌∙◌}
use mathlib.Core.Logic.{◌⊎◌}
use mathlib.Core.Bool.{Bool, true, false}
use mathlib.Core.List.{List, [], ◌∷◌, ◌++◌}
use mathlib.Core.Option.{Option, none, some, some-injective}
use native.Mathlib.Omega.{arith}
use smart_pdf_extractor.Prelude.Tests.{if◌then◌else◌}

module _ {ℓ} {A : Type ℓ} where
  abbrev pub length : List A → ℕ
  length [] = 0
  length (x ∷ xs) = suc (length xs)

  abbrev pub get_elem? : List A → ℕ → Option A
  get_elem? [] i = none
  get_elem? (x ∷ xs) zero = some x
  get_elem? (x ∷ xs) (suc i) = get_elem? xs i

  abbrev pub take : ℕ → List A → List A
  take zero xs = []
  take (suc n) [] = []
  take (suc n) (x ∷ xs) = x ∷ take n xs

  abbrev pub drop : ℕ → List A → List A
  drop zero xs = xs
  drop (suc n) [] = []
  drop (suc n) (x ∷ xs) = drop n xs

  -- A comprehension with a test: `[x for x in xs if p(x)]`.
  abbrev pub select : (A → Bool) → List A → List A
  select p [] = []
  select p (x ∷ xs) = let rest = select p xs in if p x then x ∷ rest else rest

  -- `any(p(x) for x in xs)`.
  abbrev pub any : (A → Bool) → List A → Bool
  any p [] = false
  any p (x ∷ xs) = if p x then true else any p xs

  -- How many elements pass a test.
  abbrev pub count_if : (A → Bool) → List A → ℕ
  count_if p [] = 0
  count_if p (x ∷ xs) = (if p x then 1 else 0) + count_if p xs

  pub length-append : (xs ys : List A) → length (xs ++ ys) ≡ length xs + length ys
  length-append [] ys = omega arith
  length-append (x ∷ xs) ys = omega (arith, length-append xs ys)

  pub count_if-append :
      (p : A → Bool) (xs ys : List A) → count_if p (xs ++ ys) ≡ count_if p xs + count_if p ys
  count_if-append p [] ys = omega arith
  count_if-append p (x ∷ xs) ys = ground (arith, count_if-append p xs ys)

module _ {ℓ} {A : Type ℓ} where
  pub get_elem?-take : (n j : ℕ) (xs : List A) → j < n → get_elem? (take n xs) j ≡ get_elem? xs j
  get_elem?-take zero j xs h = ground arith
  get_elem?-take (suc n) j [] h = refl
  get_elem?-take (suc n) zero (x ∷ xs) h = refl
  get_elem?-take (suc n) (suc j) (x ∷ xs) h = get_elem?-take n j xs (omega (arith, h))

  pub get_elem?-drop : (n j : ℕ) (xs : List A) → get_elem? (drop n xs) j ≡ get_elem? xs (n + j)
  get_elem?-drop zero j xs = ground arith
  get_elem?-drop (suc n) j [] = refl
  get_elem?-drop (suc n) j (x ∷ xs) =
      get_elem?-drop n j xs ∙ ap (get_elem? (x ∷ xs)) {x = suc (n + j)} (omega arith)

  pub length-take-drop :
      (n s : ℕ) (xs : List A) → s + n ≤ length xs → length (take n (drop s xs)) ≡ n
  length-take-drop zero zero xs h = refl
  length-take-drop (suc n) zero [] h = ground arith
  length-take-drop (suc n) zero (x ∷ xs) h = ap suc (length-take-drop n zero xs (omega (arith, h)))
  length-take-drop n (suc s) [] h = ground arith
  length-take-drop n (suc s) (x ∷ xs) h = length-take-drop n s xs (omega (arith, h))

-- The empty statement, at every level.
pub data Absurd {ℓ} : Type ℓ where

-- Every element satisfies a predicate.
abbrev pub All {ℓ κ} : {A : Type ℓ} → (A → Type κ) → List A → Type κ
All P [] = Unit
All P (x ∷ xs) = P x × All P xs

-- Some element satisfies a predicate.
abbrev pub Some {ℓ κ} : {A : Type ℓ} → (A → Type κ) → List A → Type κ
Some P [] = Absurd
Some P (x ∷ xs) = P x ⊎ Some P xs

-- `x in xs`, with the place found.
abbrev pub Elem {ℓ} : {A : Type ℓ} → A → List A → Type ℓ
Elem x [] = Absurd
Elem x (y ∷ ys) = (x ≡ y) ⊎ Elem x ys

pub All-get_elem? {ℓ κ} :
    {A : Type ℓ} (P : A → Type κ) (xs : List A) (i : ℕ) (a : A)
    → get_elem? xs i ≡ some a
    → All P xs
    → P a
All-get_elem? P [] i a h all = cc
All-get_elem? P (x ∷ xs) zero a h all = subst P (some-injective x a h) all.0
All-get_elem? P (x ∷ xs) (suc i) a h all = All-get_elem? P xs i a h all.1

pub All-of {ℓ κ} : {A : Type ℓ} (P : A → Type κ) (xs : List A) → ((a : A) → P a) → All P xs
All-of P [] h = tt
All-of P (x ∷ xs) h = (h x, All-of P xs h)
