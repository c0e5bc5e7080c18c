-- ===== src/GoText.antt =====
-- What the plugin uses of Go's strings package, over byte strings.
use mapex_mqttbroker.Common.{
  ℕ, zero, suc, Bool, false, ◌||◌, List, [], ◌∷◌, Option, none, some, Bytes, ◌==◌, if◌then◌else◌,
}
use mathlib.Core.Option
pub mod Split
pub mod Fold
pub mod Trim
pub mod Decimal
pub mod Utf8
pub mod Runes

-- `strings.ContainsRune(s, c)` for an ASCII `c`, which no byte of a longer rune equals.
unfoldable pub contains_rune : Bytes → ℕ → Bool
contains_rune [] c = false
contains_rune (b ∷ s) c = b == c || contains_rune s c

abbrev prepend : ℕ → Bytes × Bytes → Bytes × Bytes
prepend c (before, after) = (c ∷ before, after)

-- What stands before and after the first separator, if there is one.
unfoldable pub cut : ℕ → Bytes → Option (Bytes × Bytes)
cut sep [] = none
cut sep (c ∷ s) = if c == sep then some ([], s) else Option.map (prepend c) (cut sep s)

-- `strings.SplitN(s, sep, n)` for a separator of one byte and `n` not negative.
unfoldable pub split_n : Bytes → ℕ → ℕ → List Bytes
split_n s sep zero = []
split_n s sep (suc zero) = s ∷ []
split_n s sep (suc (suc n)) = elim (cut sep s) [
  | none ↦ s ∷ []
  | some (before, after) ↦ before ∷ split_n after sep (suc n)
]
