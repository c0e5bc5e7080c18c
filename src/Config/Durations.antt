-- ===== src/Config/Durations.antt =====
-- Durations of `LoadConfig`, which are products in 64 bits.
use mapex_mqttbroker.Common.{ℕ, suc, ◌-◌, ◌*◌, ◌^◌, ◌≤◌, ◌<◌, ◌≡◌, arith, Bytes}
use mapex_mqttbroker.Common.Int.{ℤ, pos, negsuc}
use mapex_mqttbroker.Config.{Options, times, int_or_default, duration_or_default}

-- Where the option gives a positive number of units, the duration is that number of units, if it
-- fits 63 bits.
pub duration_or_default_exact :
    (opts : Options) (key : Bytes) (unit : ℕ) (fallback : ℤ) (n : ℕ)
    → int_or_default opts key (pos 0) ≡ pos (suc n)
    → suc n * unit < 2 ^ 63
    → duration_or_default opts key unit fallback ≡ pos (suc n * unit)
unfolding duration_or_default times
duration_or_default_exact opts key unit fallback n e h = rw e (ground arith)

-- Past 63 bits it wraps: a positive number of units whose product lies between 2^63 and 2^64
-- becomes a negative duration.
pub duration_or_default_wraps :
    (opts : Options) (key : Bytes) (unit : ℕ) (fallback : ℤ) (n : ℕ)
    → int_or_default opts key (pos 0) ≡ pos (suc n)
    → 2 ^ 63 ≤ suc n * unit
    → suc n * unit < 2 ^ 64
    → duration_or_default opts key unit fallback ≡ negsuc (2 ^ 64 - suc n * unit - 1)
unfolding duration_or_default times
duration_or_default_wraps opts key unit fallback n e h k = rw e (ground arith)
