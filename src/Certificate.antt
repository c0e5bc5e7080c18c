-- ===== src/Certificate.antt =====
-- src/plugin/trampolines.c: what the plugin reads off the certificate of a client.
pub mod Spelling
use mapex_mqttbroker.Common.{
  ℕ, ◌-◌, Option, none, some, List, [], ◌∷◌, ◌&&◌, leb, ◌==◌, if◌then◌else◌, Bytes,
}

-- An X509 certificate by what OpenSSL says of it: `BN_bn2hex` of the serial, and
-- `ASN1_STRING_to_UTF8` of the first common name of the subject; `none` where a step on the way gives
-- NULL.
pub record Certificate : Type 0 where
  pub serial_hex : Option Bytes
  pub common_name : Option Bytes

-- `if (*p >= 'a' && *p <= 'f') *p -= 32`.
abbrev pub upper_digit : ℕ → ℕ
upper_digit c = if leb b'a' c && leb c b'f' then c - 32 else c

-- The loop over the copy, up to its end.
unfoldable pub upper_hex : Bytes → Bytes
upper_hex [] = []
upper_hex (c ∷ s) = upper_digit c ∷ upper_hex s

unfoldable pub get_cert_serial_hex : Option Certificate → Option Bytes
get_cert_serial_hex none = none
get_cert_serial_hex (some cert) = elim cert.serial_hex [
  | none ↦ none
  | some openssl_hex ↦ some (upper_hex openssl_hex)
]

-- A C string ends at its first zero byte, whatever was copied behind it.
unfoldable pub c_string : Bytes → Bytes
c_string [] = []
c_string (c ∷ s) = let rest = c_string s in if c == 0 then [] else c ∷ rest

-- The `n` bytes that OpenSSL gives, as the C string that the caller reads.
unfoldable pub get_cert_cn : Option Certificate → Option Bytes
get_cert_cn none = none
get_cert_cn (some cert) = elim cert.common_name [ none ↦ none | some utf8 ↦ some (c_string utf8) ]
