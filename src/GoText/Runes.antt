-- ===== src/GoText/Runes.antt =====
-- A Go `for … range` loop over a string: its runes, an invalid byte being one `RuneError`.
use mapex_mqttbroker.Common.{
  ℕ, zero, suc, ◌+◌, ◌*◌, ◌%◌, ◌≤◌, ◌<◌, ◌≡◌, refl, Bool, true, ◌&&◌, Option, none, some, List, [],
  ◌∷◌, arith, Bytes,
}
use mapex_mqttbroker.GoText.Utf8.{
  rune_tail, is_within, is_continuation, follows_in_three, follows_in_four,
}

-- The rune of a first byte and the bytes behind it, of which it takes the given number.
abbrev rune_value : ℕ → ℕ → Bytes → ℕ
rune_value zero a s = a
rune_value (suc zero) a (b ∷ s) = a % 32 * 64 + b % 64
rune_value (suc (suc zero)) a (b ∷ c ∷ s) = a % 16 * 4096 + b % 64 * 64 + c % 64
rune_value (suc (suc (suc _))) a (b ∷ c ∷ d ∷ s) =
    a % 8 * 262144 + b % 64 * 4096 + c % 64 * 64 + d % 64
rune_value (suc _) a _ = 0xFFFD

-- The first argument counts the bytes that belong to the rune before.
runes_from : ℕ → Bytes → List ℕ
runes_from pending [] = []
runes_from (suc k) (c ∷ s) = runes_from k s
runes_from zero (c ∷ s) = elim (rune_tail (c ∷ s)) [
  | none ↦ 0xFFFD ∷ runes_from zero s
  | some k ↦ rune_value k c s ∷ runes_from k s
]

unfoldable pub runes : Bytes → List ℕ
unfolding runes_from rune_tail
runes s = runes_from zero s

-- The loop with an early return: whether all items pass.
unfoldable pub all_pass {ℓ} : {A : Type ℓ} → (A → Bool) → List A → Bool
all_pass p [] = true
all_pass p (x ∷ xs) = p x && all_pass p xs

-- The next `k` bytes are there and are not ASCII.
abbrev High : ℕ → Bytes → Type 0
High zero s = Unit {0}
High (suc k) [] = ⊥
High (suc k) (c ∷ s) = (0x80 ≤ c) × High k s

-- What decoding the first rune tells.
abbrev Decoded : ℕ → Bytes → Option ℕ → Type 0
Decoded a s none = 0x80 ≤ a
Decoded a s (some zero) = a < 0x80
Decoded a s (some (suc k)) = (0x80 ≤ a) × High (suc k) s × (0x80 ≤ rune_value (suc k) a s)

rune_tail-Decoded : (a : ℕ) (s : Bytes) → Decoded a s (rune_tail (a ∷ s))
unfolding rune_tail is_within is_continuation follows_in_three follows_in_four
rune_tail-Decoded a [] = ground arith
rune_tail-Decoded a (b ∷ []) = ground arith
rune_tail-Decoded a (b ∷ c ∷ []) = ground arith
rune_tail-Decoded a (b ∷ c ∷ d ∷ s) = ground arith

module _ (p : ℕ → Bool) (accepts : (c : ℕ) → 0x80 ≤ c → p c ≡ true) where
  -- One round of the loop, with what it comes to on the rest.
  all_pass-first :
      (c : ℕ) (s : Bytes)
      → ((k : ℕ) → High k s → all_pass p (runes_from k s) ≡ all_pass p s)
      → (o : Option ℕ) → rune_tail (c ∷ s) ≡ o
      → Decoded c s o
      → all_pass p (runes_from zero (c ∷ s)) ≡ p c && all_pass p s
  unfolding all_pass runes_from
  all_pass-first c s ih none e d =
      rw (e, runes_from) (rw (accepts c d, accepts 0xFFFD (omega arith)) (ih 0 tt))
  all_pass-first c s ih (some zero) e d = rw (e, runes_from) (rw (ih 0 tt) refl)
  all_pass-first c s ih (some (suc k)) e d =
      rw (e, runes_from) (rw (accepts c d.0, accepts _ d.2) (ih (suc k) d.1))

  all_pass-runes_from : (k : ℕ) (s : Bytes) → High k s → all_pass p (runes_from k s) ≡ all_pass p s
  unfolding all_pass runes_from
  all_pass-runes_from zero [] h = refl
  all_pass-runes_from (suc k) [] h = absurd h
  all_pass-runes_from (suc k) (c ∷ s) h = rw (accepts c h.0) (all_pass-runes_from k s h.1)
  all_pass-runes_from zero (c ∷ s) h =
      all_pass-first c s (λ k. all_pass-runes_from k s) (rune_tail (c ∷ s)) refl
        (rune_tail-Decoded c s)

  -- A loop that stops only at ASCII runes may as well go over the bytes.
  pub all_pass-runes : (s : Bytes) → all_pass p (runes s) ≡ all_pass p s
  unfolding runes
  all_pass-runes s = all_pass-runes_from zero s tt
