-- ===== src/GoText/Trim.antt =====
-- `strings.TrimSpace`: the runes of `unicode.IsSpace` go from both ends.
use mathlib.Core.List.{reverse}
use mapex_mqttbroker.Common.{
  ℕ, zero, suc, ◌≡◌, refl, Bool, ◌&&◌, ◌||◌, Option, none, some, [], ◌∷◌, leb, ◌==◌, if◌then◌else◌,
  Bytes, codes,
}

is_ascii_space : ℕ → Bool
is_ascii_space c = c == b' ' || (leb 9 c && leb c 13)

-- The last byte of a space of two bytes that begins with 0xC2: U+0085, U+00A0.
is_latin_space : ℕ → Bool
is_latin_space b = b == 0x85 || b == 0xA0

-- A space of three bytes: U+1680, U+2000 to U+200A, U+2028, U+2029, U+202F, U+205F, U+3000.
is_wide_space : ℕ → ℕ → ℕ → Bool
is_wide_space a b c =
    (a == 0xE1 && b == 0x9A && c == 0x80)
    || (a == 0xE2
        && b == 0x80
        && ((leb 0x80 c && leb c 0x8A) || c == 0xA8 || c == 0xA9 || c == 0xAF))
    || (a == 0xE2 && b == 0x81 && c == 0x9F)
    || (a == 0xE3 && b == 0x80 && c == 0x80)

-- If the text begins with a space: its bytes beyond the first.
space_at_front : Bytes → Option ℕ
unfolding is_ascii_space is_latin_space is_wide_space
space_at_front [] = none
space_at_front (a ∷ []) = if is_ascii_space a then some 0 else none
space_at_front (a ∷ b ∷ []) =
    if is_ascii_space a then some 0 else if a == 0xC2 && is_latin_space b then some 1 else none
space_at_front (a ∷ b ∷ c ∷ _) =
    if is_ascii_space a
    then some 0
    else if a == 0xC2 && is_latin_space b
    then some 1
    else if is_wide_space a b c
    then some 2
    else none

-- The same of a text read backwards.
space_at_back : Bytes → Option ℕ
unfolding is_ascii_space is_latin_space is_wide_space
space_at_back [] = none
space_at_back (a ∷ []) = if is_ascii_space a then some 0 else none
space_at_back (b ∷ a ∷ []) =
    if is_ascii_space b then some 0 else if a == 0xC2 && is_latin_space b then some 1 else none
space_at_back (c ∷ b ∷ a ∷ _) =
    if is_ascii_space c
    then some 0
    else if b == 0xC2 && is_latin_space c
    then some 1
    else if is_wide_space a b c
    then some 2
    else none

-- The second argument counts the bytes of a space that are still to go.
skip : (Bytes → Option ℕ) → ℕ → Bytes → Bytes
skip space pending [] = []
skip space (suc k) (c ∷ s) = skip space k s
skip space zero (c ∷ s) = elim (space (c ∷ s)) [ none ↦ c ∷ s | some k ↦ skip space k s ]

unfoldable pub trim_space : Bytes → Bytes
unfolding skip space_at_front space_at_back
trim_space s = reverse (skip space_at_back zero (reverse (skip space_at_front zero s)))

trimmed : trim_space (codes " \t nats://nats:4222\n") ≡ codes "nats://nats:4222"
unfolding trim_space
trimmed = refl

no_break_space : trim_space (0xC2 ∷ 0xA0 ∷ b'x' ∷ 0xE2 ∷ 0x80 ∷ 0xA8 ∷ []) ≡ codes "x"
unfolding trim_space
no_break_space = refl
