-- ===== src/Payloads/Reasons.antt =====
-- The labels of disconnect reasons.
use mapex_mqttbroker.Common.{◌≡◌, [], ◌∷◌, ◌++◌, arith, Bytes, codes}
use mapex_mqttbroker.Common.Int.{ℤ, pos, negsuc}
use mapex_mqttbroker.GoText.Decimal.{itoa, IsInt64, itoa-injective}
use mapex_mqttbroker.Payloads.{format_unknown, map_disconnect_reason}

append-injective : (s t u : Bytes) → s ++ t ≡ s ++ u → t ≡ u
append-injective [] t u e = e
append-injective (c ∷ s) t u e = append-injective s t u (cc)

-- Codes of an `int` with the same label are the same code.
map_disconnect_reason-injective :
    (i j : ℤ) → IsInt64 i → IsInt64 j → map_disconnect_reason i ≡ map_disconnect_reason j → i ≡ j
unfolding map_disconnect_reason format_unknown
map_disconnect_reason-injective (pos n) (pos m) h k e = ground (
  arith,
  itoa-injective (pos n) (pos m) h k,
  append-injective (codes "unknown_") (itoa (pos n)) (itoa (pos m)),
)
map_disconnect_reason-injective (pos n) (negsuc m) h k e = ground (
  arith,
  itoa-injective (pos n) (negsuc m) h k,
  append-injective (codes "unknown_") (itoa (pos n)) (itoa (negsuc m)),
)
map_disconnect_reason-injective (negsuc n) (pos m) h k e = ground (
  arith,
  itoa-injective (negsuc n) (pos m) h k,
  append-injective (codes "unknown_") (itoa (negsuc n)) (itoa (pos m)),
)
map_disconnect_reason-injective (negsuc n) (negsuc m) h k e = ground (
  arith,
  itoa-injective (negsuc n) (negsuc m) h k,
  append-injective (codes "unknown_") (itoa (negsuc n)) (itoa (negsuc m)),
)
