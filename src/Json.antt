-- ===== src/Json.antt =====
-- JSON documents as encoding/json reads and writes them. The text of a document (white space,
-- escapes) is not modelled: a document stands for the text that renders it.
use mapex_mqttbroker.Common.{
  ℕ, ◌+◌, ◌-◌, ◌*◌, ◌/◌, ◌%◌, ◌≡◌, refl, Bool, [], ◌∷◌, ltb, ◌==◌, if◌then◌else◌, Bytes, codes,
}
use mapex_mqttbroker.Common.Int.{ℤ}
use mapex_mqttbroker.GoText.Utf8.{coerce_utf8}

-- Of numbers the program writes and reads integers only.
mutual
  pub data Json : Type 0 where
    null : Json
    bool : Bool → Json
    num : ℤ → Json
    str : Bytes → Json
    arr : Items → Json
    obj : Fields → Json

  pub data Items : Type 0 where
    nil : Items
    cons : Json → Items → Items

  pub data Fields : Type 0 where
    end : Fields
    field : Bytes → Json → Fields → Fields

-- How the encoder writes a Go string.
unfoldable pub text : Bytes → Json
text s = str (coerce_utf8 s)

-- A field with the tag `omitempty`.
abbrev pub field_if : Bool → Bytes → Json → Fields → Fields
field_if present key value rest = if present then field key value rest else rest

-- The character for six bits of base64.
unfoldable pub base64_char : ℕ → ℕ
base64_char n =
    if ltb n 26
    then n + b'A'
    else if ltb n 52
    then n - 26 + b'a'
    else if ltb n 62
    then n - 52 + b'0'
    else if n == 62
    then b'+'
    else b'/'

-- `base64.StdEncoding`, as the encoder writes a `[]byte`.
unfoldable pub base64 : Bytes → Bytes
unfolding base64_char
base64 [] = []
base64 (a ∷ []) = base64_char (a / 4) ∷ base64_char (a % 4 * 16) ∷ b'=' ∷ b'=' ∷ []
base64 (a ∷ b ∷ []) =
    base64_char (a / 4) ∷ base64_char (a % 4 * 16 + b / 16) ∷ base64_char (b % 16 * 4) ∷ b'=' ∷ []
base64 (a ∷ b ∷ c ∷ s) =
    base64_char (a / 4)
    ∷ base64_char (a % 4 * 16 + b / 16)
    ∷ base64_char (b % 16 * 4 + c / 64)
    ∷ base64_char (c % 64)
    ∷ base64 s

base64_test : base64 (codes "hello") ≡ codes "aGVsbG8="
unfolding base64
base64_test = refl
