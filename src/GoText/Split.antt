-- ===== src/GoText/Split.antt =====
-- Lemmas on the search for a byte and on the cut at a separator.
use mapex_mqttbroker.Common.{
  ℕ, ◌≡◌, refl, ap, ◌↔◌, ◌⊎◌, inl, inr, false, none, some, [], ◌∷◌, ◌++◌, arith, ◌==◌, ==_iff,
  Bool-cases, Bytes, Lacks,
}
use mapex_mqttbroker.GoText.{contains_rune, cut}

pub contains_rune-eq-false_iff : (s : Bytes) (c : ℕ) → (contains_rune s c ≡ false) ↔ Lacks c s
unfolding contains_rune
contains_rune-eq-false_iff [] c = (λ _. tt, λ _. refl)
contains_rune-eq-false_iff (b ∷ s) c = ground (arith, contains_rune-eq-false_iff s c)

pub cut-append :
    (sep : ℕ) (before after : Bytes)
    → Lacks sep before
    → cut sep (before ++ sep ∷ after) ≡ some (before, after)
unfolding cut
cut-append sep [] after h = ground arith
cut-append sep (c ∷ before) after h = ground (arith, cut-append sep before after h.1)

pub cut_of_Lacks : (sep : ℕ) (s : Bytes) → Lacks sep s → cut sep s ≡ none
unfolding cut
cut_of_Lacks sep [] h = refl
cut_of_Lacks sep (c ∷ s) h = ground (arith, cut_of_Lacks sep s h.1)

-- The cut fails on a text without the separator, and otherwise is at its first place.
pub cut_cases :
    (sep : ℕ) (s : Bytes)
    → ((cut sep s ≡ none) × Lacks sep s)
      ⊎ ((before : Bytes) × (after : Bytes) × (cut sep s ≡ some (before, after))
          × Lacks sep before
          × (s ≡ before ++ sep ∷ after))
unfolding cut
cut_cases sep [] = inl (refl, tt)
cut_cases sep (c ∷ s) = elim (Bool-cases (c == sep)) [
  | inl e ↦ inr ([], s, rw e, tt, ap (λ b. b ∷ s) ((==_iff c sep).0 e))
  | inr e ↦ elim (cut_cases sep s) [
    | inl (missed, lacks) ↦ inl (rw (e, missed), (ground arith, lacks))
    | inr (before, after, found, lacks, spelled) ↦
        inr (c ∷ before, after, rw (e, found), (ground arith, lacks), ap (λ t. c ∷ t) spelled)
  ]
]
