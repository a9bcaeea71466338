-- ===== src/Prelude/Strings.antt =====
-- Text as a list of character codes, with the string methods that the source uses on it. Letters
-- and white space are those of ASCII.
use Prim.Native.Nat.{ℕ, ◌+◌, ◌-◌}
use Prim.Native.String as Native
use Prim.Native.String.{String}
use Prim.Native.Char.{code}
use mathlib.Core.Bool.{Bool, ◌&&◌, ◌||◌}
use mathlib.Core.List.{List, [], ◌∷◌, map, reverse}
use smart_pdf_extractor.Prelude.Tests.{leb, nat_beq, if◌then◌else◌}

abbrev pub Text : Type 0
Text = List ℕ

unfoldable pub is_space : ℕ → Bool
is_space c = (leb 9 c && leb c 13) || (leb 28 c && leb c 32)

unfoldable pub lower_char : ℕ → ℕ
lower_char c = if leb b'A' c && leb c b'Z' then c + 32 else c

unfoldable pub upper_char : ℕ → ℕ
upper_char c = if leb b'a' c && leb c b'z' then c - 32 else c

-- `s.lower()`
unfoldable pub lower : Text → Text
lower = map lower_char

-- `s.upper()`
unfoldable pub upper : Text → Text
upper = map upper_char

-- `s.lstrip()`
unfoldable pub lstrip : Text → Text
lstrip [] = []
lstrip (c ∷ s) = let rest = lstrip s in if is_space c then rest else c ∷ s

-- `s.strip()`
unfoldable pub strip : Text → Text
unfolding lstrip
strip s = reverse (lstrip (reverse (lstrip s)))

-- `s.replace(" ", "_")`
unfoldable pub underscored : Text → Text
underscored = map (λ c. if nat_beq c 32 then 95 else c)

-- The characters of a literal.
abbrev pub codes : String → Text
codes Native.[] = []
codes (Native.◌∷◌ c s) = code c ∷ codes s
