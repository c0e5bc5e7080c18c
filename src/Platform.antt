-- ===== src/Platform.antt =====
-- What the plugin takes from outside src/: golang.org/x/crypto/bcrypt, the tables of Go's unicode
-- package, and the RFC 3339 text of Go's time package.
use mapex_mqttbroker.Common.{ℕ, ◌≡◌, Bool, Option, some, Bytes}

pub record Platform : Type 0 where
  -- `bcrypt.CompareHashAndPassword(hash, password) == nil`.
  pub bcrypt : Bytes → Bytes → Bool
  -- `strings.EqualFold` from the first byte on that is not ASCII.
  pub unicode_fold : Bytes → Bytes → Bool
  -- `time.Time.MarshalJSON`, which fails past the year 9999, and `UnmarshalJSON`.
  pub render_time : ℕ → Option Bytes
  pub parse_time : Bytes → Option ℕ

-- The documented behaviour of `MarshalJSON` and `UnmarshalJSON`: what is written is read back.
abbrev pub ReadsTime : Platform → Type 0
ReadsTime env = (t : ℕ) (s : Bytes) → env.render_time t ≡ some s → env.parse_time s ≡ some t
