-- ===== src/Runtime/Token.antt =====
-- `validSubjectToken` of src/plugin.go.
use mapex_mqttbroker.Common.{
  ℕ, ◌≤◌, ◌≡◌, refl, ◌≢◌, ◌↔◌, true, [], ◌∷◌, arith, is_empty_iff, All, Bytes,
}
use mapex_mqttbroker.GoText.Runes.{all_pass, all_pass-runes}
use mapex_mqttbroker.Runtime.{is_plain, valid_subject_token}

is_plain_high : (c : ℕ) → 0x80 ≤ c → is_plain c ≡ true
unfolding is_plain
is_plain_high c h = ground arith

-- No character that NATS gives a meaning occurs in the text.
abbrev pub IsLiteral : Bytes → Type 0
IsLiteral =
    All λ c. (c ≢ b'.') × (c ≢ b'*') × (c ≢ b'>') × (c ≢ b' ') × (c ≢ 9) × (c ≢ 10) × (c ≢ 13)

all_pass-is_plain_iff : (s : Bytes) → (all_pass is_plain s ≡ true) ↔ IsLiteral s
unfolding all_pass is_plain
all_pass-is_plain_iff [] = (λ _. tt, λ _. refl)
all_pass-is_plain_iff (c ∷ s) = ground (arith, all_pass-is_plain_iff s)

-- `validSubjectToken`, whose loop goes over the runes of the string, accepts exactly the strings
-- that are not empty and none of whose bytes is a dot, an asterisk, a greater-than sign, a space, a
-- tab, a line feed or a carriage return, whether they are UTF-8 or not.
pub valid_subject_token_iff :
    (s : Bytes) → (valid_subject_token s ≡ true) ↔ ((s ≢ []) × IsLiteral s)
unfolding valid_subject_token
valid_subject_token_iff s =
    ground (arith, is_empty_iff s, all_pass-runes is_plain is_plain_high s, all_pass-is_plain_iff s)
