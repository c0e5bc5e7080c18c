-- ===== src/GoText/Fold.antt =====
-- `strings.EqualFold`.
use mapex_mqttbroker.Common.{
  ℕ, ◌+◌, ◌<◌, ◌≡◌, refl, Bool, true, false, ◌&&◌, ◌||◌, [], ◌∷◌, arith, leb, ◌==◌, if◌then◌else◌,
  length, All, Bytes,
}

-- Two bytes of ASCII are the same letter.
same_letter : ℕ → ℕ → Bool
same_letter a b =
    a == b || (leb b'A' a && leb a b'Z' && b == a + 32) || (leb b'A' b && leb b b'Z' && a == b + 32)

-- The fast path of `strings.EqualFold`. At the first byte that is not ASCII the rest of both texts
-- goes to `unicode`, which stands for the loop over the tables of the unicode package.
unfoldable pub equal_fold : (Bytes → Bytes → Bool) → Bytes → Bytes → Bool
unfolding same_letter
equal_fold unicode [] [] = true
equal_fold unicode [] (_ ∷ _) = false
equal_fold unicode (_ ∷ _) [] = false
equal_fold unicode (a ∷ s) (b ∷ t) =
    if leb 128 a || leb 128 b
    then unicode (a ∷ s) (b ∷ t)
    else same_letter a b && equal_fold unicode s t

abbrev pub IsAscii : Bytes → Type 0
IsAscii = All (λ c. c < 128)

equal_fold_refl :
    (unicode : Bytes → Bytes → Bool) (s : Bytes) → IsAscii s → equal_fold unicode s s ≡ true
unfolding equal_fold
equal_fold_refl unicode [] h = refl
equal_fold_refl unicode (c ∷ s) h = ground (arith, equal_fold_refl unicode s h.1)

-- Over ASCII the comparison does not depend on the order of the two texts.
equal_fold_comm :
    (unicode : Bytes → Bytes → Bool) (s t : Bytes)
    → IsAscii s
    → IsAscii t
    → equal_fold unicode s t ≡ equal_fold unicode t s
unfolding equal_fold
equal_fold_comm unicode [] [] h k = refl
equal_fold_comm unicode [] (_ ∷ _) h k = refl
equal_fold_comm unicode (_ ∷ _) [] h k = refl
equal_fold_comm unicode (a ∷ s) (b ∷ t) h k = ground (arith, equal_fold_comm unicode s t h.1 k.1)

-- A text of ASCII equals only texts of the same length.
length_of_equal_fold :
    (unicode : Bytes → Bytes → Bool) (s t : Bytes)
    → IsAscii s
    → IsAscii t
    → equal_fold unicode s t ≡ true
    → length s ≡ length t
unfolding equal_fold
length_of_equal_fold unicode [] [] h k e = refl
length_of_equal_fold unicode [] (_ ∷ _) h k e = cc
length_of_equal_fold unicode (_ ∷ _) [] h k e = cc
length_of_equal_fold unicode (a ∷ s) (b ∷ t) h k e =
    ground (arith, length_of_equal_fold unicode s t h.1 k.1)
