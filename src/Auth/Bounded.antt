-- ===== src/Auth/Bounded.antt =====
-- How much a device can write to the log of `Authenticate`.
use mapex_mqttbroker.Common.{ℕ, ◌+◌, List, [], ◌∷◌, length}
use mapex_mqttbroker.AuthStore.{AuthStore}
use mapex_mqttbroker.Log.{Arg, text, number}
use mapex_mqttbroker.Platform.{Platform}

-- The bytes of the texts that a call hands to its format.
pub text_bytes : List Arg → ℕ
text_bytes [] = 0
text_bytes (text s ∷ args) = length s + text_bytes args
text_bytes (number _ ∷ args) = text_bytes args
