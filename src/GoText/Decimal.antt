-- ===== src/GoText/Decimal.antt =====
-- `strconv.Atoi` and `strconv.Itoa` for an `int` of 64 bits.
use mathlib.Core.Option
use mapex_mqttbroker.Common.{
  ℕ, zero, suc, ◌+◌, ◌-◌, ◌*◌, ◌/◌, ◌%◌, ◌^◌, ◌≤◌, ◌<◌, ◌≡◌, refl, sym, ap, ◌∙◌, inl, inr, Bool,
  true, false, ◌&&◌, Option, none, some, [], ◌∷◌, arith, ltb, leb, ◌==◌, if◌then◌else◌, Bool-cases,
  Bytes, codes,
}
use mapex_mqttbroker.Common.Int.{ℤ, pos, negsuc, max_int64}

-- The number that the digits spell behind `n`, if they are all digits.
scan : Bytes → ℕ → Option ℕ
scan [] n = some n
scan (c ∷ s) n = if leb b'0' c && leb c b'9' then scan s (n * 10 + (c - b'0')) else none

-- The range of an `int`.
in_range : Bool → ℕ → Option ℤ
in_range false n = if ltb n (2 ^ 63) then some (pos n) else none
in_range true zero = some (pos 0)
in_range true (suc n) = if ltb n (2 ^ 63) then some (negsuc n) else none

ranged : Bool → Option ℕ → Option ℤ
unfolding in_range
ranged negative none = none
ranged negative (some n) = in_range negative n

-- The digits behind the sign; there must be one.
magnitude : Bytes → Option ℕ
unfolding scan
magnitude [] = none
magnitude (c ∷ s) = scan (c ∷ s) 0

-- `none` is an error, of syntax or of range.
unfoldable pub atoi : Bytes → Option ℤ
unfolding magnitude ranged
atoi [] = none
atoi (c ∷ s) =
    if c == b'-'
    then ranged true (magnitude s)
    else if c == b'+'
    then ranged false (magnitude s)
    else ranged false (magnitude (c ∷ s))

-- The digits of `n` before `out`; one round of fuel for each digit.
digits : ℕ → ℕ → Bytes → Bytes
digits zero n out = out
digits (suc fuel) n out =
    let rest = digits fuel (n / 10) ((b'0' + n % 10) ∷ out) in
    if ltb n 10 then (b'0' + n) ∷ out else rest

unfoldable pub itoa : ℤ → Bytes
unfolding digits
itoa (pos n) = digits (suc n) n []
itoa (negsuc n) = b'-' ∷ digits (suc (suc n)) (suc n) []

scan-digits : (fuel n : ℕ) (out : Bytes) → n < fuel → scan (digits fuel n out) 0 ≡ scan out n
unfolding digits scan
scan-digits zero n out h = absurd (omega arith)
scan-digits (suc fuel) n out h = ground (arith, scan-digits fuel (n / 10) ((b'0' + n % 10) ∷ out))

-- The first byte of a number is a digit.
abbrev StartsWithDigit : Bytes → Type 0
StartsWithDigit [] = ⊥
StartsWithDigit (c ∷ _) = (b'0' ≤ c) × (c ≤ b'9')

digits-StartsWithDigit : (fuel n : ℕ) (out : Bytes) → n < fuel → StartsWithDigit (digits fuel n out)
unfolding digits
digits-StartsWithDigit zero n out h = absurd (omega arith)
digits-StartsWithDigit (suc fuel) n out h = elim (Bool-cases (ltb n 10)) [
  | inl e ↦ rw e (ground arith)
  | inr e ↦ rw e (digits-StartsWithDigit fuel (n / 10) ((b'0' + n % 10) ∷ out) (ground arith))
]

magnitude-scan : (s : Bytes) → StartsWithDigit s → magnitude s ≡ scan s 0
unfolding magnitude
magnitude-scan [] h = absurd h
magnitude-scan (c ∷ s) h = refl

atoi_unsigned : (s : Bytes) → StartsWithDigit s → atoi s ≡ ranged false (magnitude s)
unfolding atoi
atoi_unsigned [] h = absurd h
atoi_unsigned (c ∷ s) h = ground arith

-- An integer that an `int` can hold.
abbrev pub IsInt64 : ℤ → Type 0
IsInt64 (pos n) = n < 2 ^ 63
IsInt64 (negsuc n) = n < 2 ^ 63

atoi_negative : (s : Bytes) → atoi (b'-' ∷ s) ≡ ranged true (magnitude s)
unfolding atoi
atoi_negative s = refl

scan_done : (n : ℕ) → scan [] n ≡ some n
unfolding scan
scan_done n = refl

atoi_of_digits :
    (n : ℕ) (negative : Bool)
    → ranged negative (magnitude (digits (suc n) n [])) ≡ in_range negative n
unfolding ranged
atoi_of_digits n negative = rw (
  magnitude-scan _ (digits-StartsWithDigit (suc n) n [] (omega arith)),
  scan-digits (suc n) n [] (omega arith),
  scan_done n,
)

-- `Atoi` reads back what `Itoa` writes, for every `int`.
pub atoi-itoa : (i : ℤ) → IsInt64 i → atoi (itoa i) ≡ some i
unfolding itoa in_range
atoi-itoa (pos n) h =
    atoi_unsigned _ (digits-StartsWithDigit (suc n) n [] (omega arith))
    ∙ atoi_of_digits n false
    ∙ ground arith
atoi-itoa (negsuc n) h = atoi_negative _ ∙ atoi_of_digits (suc n) true ∙ ground arith

-- So different integers are written differently.
pub itoa-injective : (i j : ℤ) → IsInt64 i → IsInt64 j → itoa i ≡ itoa j → i ≡ j
itoa-injective i j h k e =
    Option.some-injective i j (sym (atoi-itoa i h) ∙ ap atoi e ∙ atoi-itoa j k)

largest : atoi (codes "9223372036854775807") ≡ some (pos max_int64)
unfolding atoi
largest = refl

too_large : atoi (codes "9223372036854775808") ≡ none
unfolding atoi
too_large = refl

smallest : itoa (negsuc max_int64) ≡ codes "-9223372036854775808"
unfolding itoa
smallest = refl
