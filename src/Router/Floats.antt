-- ===== src/Router/Floats.antt =====
-- The float arithmetic that pdf_ingestion/pipeline/schemas/router.py and themes.py use: binary
-- floating-point numbers of 53 bits that are not negative, rounded to the nearest and to even.
use smart_pdf_extractor.Prelude.{
  ℕ, zero, suc, ◌+◌, ◌-◌, ◌*◌, ◌/◌, ◌%◌, ◌^◌, Bool, true, false, ltb, leb, nat_beq, if◌then◌else◌,
}

-- A whole number and how often it is halved.
abbrev pub Float : Type 0
Float = ℕ × ℕ

-- How often `n` is doubled until `n / d` has 53 bits, at most as often as the fuel says.
unfoldable pub doublings : ℕ → ℕ → ℕ → ℕ
doublings zero n d = 0
doublings (suc fuel) n d = elim (leb (d * 2 ^ 52) n) [
  | true ↦ 0
  | false ↦ 1 + doublings fuel (2 * n) d
]

-- The whole number nearest to `n / d`, and the even one of two.
unfoldable pub nearest : ℕ → ℕ → ℕ
nearest n d =
    let q = n / d in
    let r = 2 * (n % d) in if ltb r d then q else if nat_beq r d then q + q % 2 else q + 1

-- `n / d` rounded, for a quotient of less than 2^53. Fuel for 200 doublings is enough for all that
-- is 0 or not below 2^-148.
unfoldable pub quotient : ℕ → ℕ → Float
unfolding doublings nearest
quotient n d = let k = doublings 200 n d in (nearest (n * 2 ^ k) d, k)

abbrev pub exact : ℕ → Float
exact n = (n, 0)

unfoldable pub f_less : Float → Float → Bool
f_less (m, a) (n, b) = ltb (m * 2 ^ b) (n * 2 ^ a)

unfoldable pub f_add : Float → Float → Float
unfolding quotient
f_add (m, a) (n, b) = quotient (m * 2 ^ b + n * 2 ^ a) (2 ^ (a + b))

-- 0 where the difference is negative.
unfoldable pub f_sub : Float → Float → Float
unfolding quotient
f_sub (m, a) (n, b) = quotient (m * 2 ^ b - n * 2 ^ a) (2 ^ (a + b))

unfoldable pub f_mul : Float → Float → Float
unfolding quotient
f_mul (m, a) (n, b) = quotient (m * n) (2 ^ (a + b))

unfoldable pub f_div : Float → Float → Float
unfolding quotient
f_div (m, a) (n, b) = quotient (m * 2 ^ b) (n * 2 ^ a)

abbrev pub f_max : Float → Float → Float
f_max x y = if f_less x y then y else x

abbrev pub f_min : Float → Float → Float
f_min x y = if f_less y x then y else x
