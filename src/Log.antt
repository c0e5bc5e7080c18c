-- ===== src/Log.antt =====
-- src/log.go: the loggers, which write a line to standard error or nothing, and `truncate`. What
-- the writer holds is the logger's state; `fmt` and the clock are parameters.
pub mod Lines
mod Tests
use mapex_mqttbroker.Common.{
  ℕ, zero, suc, ◌+◌, ◌≤◌, Bool, true, false, not, Option, none, some, List, [], ◌∷◌, ◌++◌, arith,
  ltb, leb, if◌then◌else◌, length, take, length-append, Bytes, codes,
}
use mapex_mqttbroker.Common.Int.{ℤ, pos, negsuc}
use mapex_mqttbroker.GoText.Utf8.{IsUtf8, coerce_utf8}

pub data LogLevel : Type 0 where
  log_debug log_info log_warn log_error : LogLevel

abbrev pub level_number : LogLevel → ℕ
level_number log_debug = 0
level_number log_info = 1
level_number log_warn = 2
level_number log_error = 3

-- Whether a logger of this minimum writes the line.
unfoldable pub is_written : LogLevel → LogLevel → Bool
is_written min_level level =
    if ltb (level_number level) (level_number min_level) then false else true

-- What a caller hands to a format: a text, an error's text, or an integer.
pub data Arg : Type 0 where
  text : Bytes → Arg
  number : ℤ → Arg

-- `fmt.Sprintf`, and the layout "2006-01-02T15:04:05.000Z" of a time.
pub record Formatter : Type 0 where
  pub sprintf : Bytes → List Arg → Bytes
  pub timestamp : ℕ → Bytes

-- `w` is all that the writer has been given.
pub record StderrLogger : Type 0 where
  pub w : Bytes
  pub min_level : LogLevel

pub data Logger : Type 0 where
  stderr_logger : StderrLogger → Logger
  nop_logger : Logger

-- A nil writer is standard error; `w` is what it holds by then.
unfoldable pub new_logger : Bytes → LogLevel → Logger
new_logger w min_level = stderr_logger (record { w = w; min_level = min_level })

-- A logger that may be nil, as `logger()` and `ConnectNATS` take it.
unfoldable pub or_nop : Option Logger → Logger
or_nop none = nop_logger
or_nop (some l) = l

abbrev pub layer : Bytes
layer = codes " [PLUGIN:Mosquitto] "

-- "%s %s [PLUGIN:Mosquitto] %s\n" with its three arguments.
unfoldable pub line : Bytes → Bytes → Bytes → Bytes
line now label msg = now ++ b' ' ∷ (label ++ (layer ++ (msg ++ 10 ∷ [])))

module _ (fmt : Formatter) where
  -- A failure to write is ignored.
  unfoldable pub write : ℕ → StderrLogger → LogLevel → Bytes → Bytes → List Arg → StderrLogger
  unfolding is_written line
  write now l level label format args =
      if not (is_written l.min_level level)
      then l
      else record l { w = l.w ++ line (fmt.timestamp now) label (fmt.sprintf format args) }

  unfoldable pub debug : ℕ → Logger → Bytes → List Arg → Logger
  debug now nop_logger format args = nop_logger
  debug now (stderr_logger l) format args =
      stderr_logger (write now l log_debug (codes "DEBUG") format args)

  unfoldable pub info : ℕ → Logger → Bytes → List Arg → Logger
  info now nop_logger format args = nop_logger
  info now (stderr_logger l) format args =
      stderr_logger (write now l log_info (codes "INFO ") format args)

  unfoldable pub warn : ℕ → Logger → Bytes → List Arg → Logger
  warn now nop_logger format args = nop_logger
  warn now (stderr_logger l) format args =
      stderr_logger (write now l log_warn (codes "WARN ") format args)

  unfoldable pub error : ℕ → Logger → Bytes → List Arg → Logger
  error now nop_logger format args = nop_logger
  error now (stderr_logger l) format args =
      stderr_logger (write now l log_error (codes "ERROR") format args)

-- The bytes of "…".
abbrev ellipsis : Bytes
ellipsis = 0xE2 ∷ 0x80 ∷ 0xA6 ∷ []

unfoldable pub truncate : Bytes → ℤ → Bytes
truncate s (negsuc _) = s
truncate s (pos zero) = s
truncate s (pos (suc n)) = if leb (length s) (suc n) then s else take (suc n) s ++ ellipsis

length-take-le : (n : ℕ) (s : Bytes) → length (take n s) ≤ n
length-take-le zero s = omega arith
length-take-le (suc n) [] = omega arith
length-take-le (suc n) (c ∷ s) = omega (arith, length-take-le n s)

-- With a positive limit the result has at most as many bytes as the limit and the ellipsis.
pub length-truncate-le : (s : Bytes) (n : ℕ) → length (truncate s (pos (suc n))) ≤ suc n + 3
unfolding truncate
length-truncate-le s n =
    ground (arith, length-append (take (suc n) s) ellipsis, length-take-le (suc n) s)

-- The limit counts bytes: it can cut a rune in two, so that the line is no longer UTF-8.
cuts_a_rune : ¬ IsUtf8 (truncate (b'a' ∷ 0xC3 ∷ 0xA9 ∷ []) (pos 2))
unfolding truncate coerce_utf8
cuts_a_rune h = cc
