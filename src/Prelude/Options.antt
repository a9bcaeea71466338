-- ===== src/Prelude/Options.antt =====
-- What the source does with a value that may be missing.
use mathlib.Core.Bool.{Bool, true, false}
use mathlib.Core.Option.{Option, none, some}

module _ {ℓ} {A : Type ℓ} where
  abbrev pub is_some : Option A → Bool
  is_some none = false
  is_some (some a) = true

  -- `d.get(k, default)`, of what `d.get(k)` finds.
  abbrev pub get_or : Option A → A → A
  get_or none d = d
  get_or (some a) d = a

  -- The first of two values that is there.
  abbrev pub or_else : Option A → Option A → Option A
  or_else none d = d
  or_else (some a) d = some a
