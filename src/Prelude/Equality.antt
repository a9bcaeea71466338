-- ===== src/Prelude/Equality.antt =====
-- `a == b` of the source, for each type that has such a test: one operator, by instances.
use Prim.Native.Nat.{ℕ}
use Prim.Native.String.{String}
use mathlib.Core.Path.{◌≡◌}
use mathlib.Core.Logic.{◌↔◌}
use mathlib.Core.Bool.{Bool, true, false, ◌&&◌}
use mathlib.Core.List.{List, [], ◌∷◌}
use native.Mathlib.Omega.{arith}
use text.Mathlib.Text.{◌==◌ as str_eq}
use text.Mathlib.TextEquality.{eq_iff}
use smart_pdf_extractor.Prelude.Tests.{nat_beq, nat_beq_iff}

-- A Boolean test that is true exactly at equal values.
pub record SameTest {ℓ} (K : Type ℓ) : Type ℓ where
  pub same : K → K → Bool
  pub same_iff : (x y : K) → (same x y ≡ true) ↔ (x ≡ y)

instance abbrev pub nat_eq : SameTest ℕ
nat_eq = record { same = nat_beq; same_iff = nat_beq_iff }

instance abbrev pub string_eq : SameTest String
string_eq = record { same = str_eq; same_iff = eq_iff }

infix 50 ◌==◌
abbrev pub ◌==◌ {ℓ} : {K : Type ℓ} ⦃key : SameTest K⦄ → K → K → Bool
◌==◌ ⦃key⦄ = key.same

pub ==_iff {ℓ} : {K : Type ℓ} ⦃key : SameTest K⦄ (x y : K) → ((x == y) ≡ true) ↔ (x ≡ y)
==_iff ⦃key⦄ x y = key.same_iff x y

module _ {ℓ κ} {K : Type ℓ} {L : Type κ} ⦃key : SameTest K⦄ ⦃key' : SameTest L⦄ where
  abbrev pub pair_same : K × L → K × L → Bool
  pair_same (x, y) (x', y') = (x == x') && (y == y')

  pub pair_same_iff : (p q : K × L) → (pair_same p q ≡ true) ↔ (p ≡ q)
  pair_same_iff (x, y) (x', y') = ground (arith, key.same_iff x x', key'.same_iff y y')

  instance abbrev pub pair_eq : SameTest (K × L)
  pair_eq = record { same = pair_same; same_iff = pair_same_iff }

module _ {ℓ} {K : Type ℓ} ⦃key : SameTest K⦄ where
  abbrev pub list_same : List K → List K → Bool
  list_same [] [] = true
  list_same [] (y ∷ ys) = false
  list_same (x ∷ xs) [] = false
  list_same (x ∷ xs) (y ∷ ys) = (x == y) && list_same xs ys

  pub list_same_iff : (xs ys : List K) → (list_same xs ys ≡ true) ↔ (xs ≡ ys)
  list_same_iff [] [] = ground arith
  list_same_iff [] (y ∷ ys) = ground arith
  list_same_iff (x ∷ xs) [] = ground arith
  list_same_iff (x ∷ xs) (y ∷ ys) = ground (arith, key.same_iff x y, list_same_iff xs ys)

  instance abbrev pub list_eq : SameTest (List K)
  list_eq = record { same = list_same; same_iff = list_same_iff }
