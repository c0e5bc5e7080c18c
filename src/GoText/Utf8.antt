-- ===== src/GoText/Utf8.antt =====
-- UTF-8 as Go's unicode/utf8 decodes it.
use mapex_mqttbroker.Common.{
  ℕ, zero, suc, ◌≡◌, refl, Bool, ◌&&◌, Option, none, some, [], ◌∷◌, ltb, leb, ◌==◌, if◌then◌else◌,
  Bytes,
}

unfoldable pub is_within : ℕ → ℕ → ℕ → Bool
is_within lo hi b = leb lo b && leb b hi

unfoldable pub is_continuation : ℕ → Bool
unfolding is_within
is_continuation b = is_within 0x80 0xBF b

-- Whether `b` may follow `a` in a rune of three bytes, or of four.
unfoldable pub follows_in_three : ℕ → ℕ → Bool
unfolding is_within
follows_in_three a b =
    if a == 0xE0
    then is_within 0xA0 0xBF b
    else if a == 0xED
    then is_within 0x80 0x9F b
    else is_within 0xE1 0xEF a && is_within 0x80 0xBF b

unfoldable pub follows_in_four : ℕ → ℕ → Bool
unfolding is_within
follows_in_four a b =
    if a == 0xF0
    then is_within 0x90 0xBF b
    else if a == 0xF4
    then is_within 0x80 0x8F b
    else is_within 0xF1 0xF3 a && is_within 0x80 0xBF b

-- The bytes that the first rune takes beyond its first byte; `none` where the text is not UTF-8
-- (`utf8.DecodeRune` returns `RuneError` and 1).
unfoldable pub rune_tail : Bytes → Option ℕ
unfolding is_continuation follows_in_three follows_in_four
rune_tail [] = none
rune_tail (a ∷ []) = if ltb a 0x80 then some 0 else none
rune_tail (a ∷ b ∷ []) =
    if ltb a 0x80
    then some 0
    else if is_within 0xC2 0xDF a && is_continuation b
    then some 1
    else none
rune_tail (a ∷ b ∷ c ∷ []) =
    if ltb a 0x80
    then some 0
    else if is_within 0xC2 0xDF a && is_continuation b
    then some 1
    else if follows_in_three a b && is_continuation c
    then some 2
    else none
rune_tail (a ∷ b ∷ c ∷ d ∷ _) =
    if ltb a 0x80
    then some 0
    else if is_within 0xC2 0xDF a && is_continuation b
    then some 1
    else if follows_in_three a b && is_continuation c
    then some 2
    else if follows_in_four a b && is_continuation c && is_continuation d
    then some 3
    else none

-- The first argument counts the bytes of the present rune that are still to be copied.
coerce_from : ℕ → Bytes → Bytes
coerce_from pending [] = []
coerce_from (suc k) (c ∷ s) = c ∷ coerce_from k s
coerce_from zero (c ∷ s) = elim (rune_tail (c ∷ s)) [
  | none ↦ 0xEF ∷ 0xBF ∷ 0xBD ∷ coerce_from zero s
  | some k ↦ c ∷ coerce_from k s
]

-- What `json.Marshal` writes for a string: each byte that is not UTF-8 becomes U+FFFD.
unfoldable pub coerce_utf8 : Bytes → Bytes
unfolding coerce_from rune_tail
coerce_utf8 s = coerce_from zero s

abbrev pub IsUtf8 : Bytes → Type 0
IsUtf8 s = coerce_utf8 s ≡ s

accented : coerce_utf8 (0xC3 ∷ 0xA9 ∷ b'x' ∷ []) ≡ 0xC3 ∷ 0xA9 ∷ b'x' ∷ []
unfolding coerce_utf8
accented = refl

cut_rune : coerce_utf8 (b'x' ∷ 0xC3 ∷ []) ≡ b'x' ∷ 0xEF ∷ 0xBF ∷ 0xBD ∷ []
unfolding coerce_utf8
cut_rune = refl
