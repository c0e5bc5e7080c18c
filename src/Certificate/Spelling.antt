-- ===== src/Certificate/Spelling.antt =====
-- How the serial and the common name come out of src/plugin/trampolines.c.
use mapex_mqttbroker.Common.{ℕ, ◌≡◌, refl, ◌≢◌, Bool, [], ◌∷◌, ◌++◌, arith, Bytes, Lacks}
use mapex_mqttbroker.Certificate.{upper_hex, c_string}
use mapex_mqttbroker.GoText.Fold.{IsAscii, equal_fold}

-- To `strings.EqualFold` over ASCII it makes no difference whether a serial was raised to capitals.
pub equal_fold-upper_hex :
    (unicode : Bytes → Bytes → Bool) (s t : Bytes)
    → IsAscii s
    → IsAscii t
    → equal_fold unicode s (upper_hex t) ≡ equal_fold unicode s t
unfolding equal_fold upper_hex
equal_fold-upper_hex unicode [] [] h k = refl
equal_fold-upper_hex unicode [] (_ ∷ _) h k = refl
equal_fold-upper_hex unicode (_ ∷ _) [] h k = refl
equal_fold-upper_hex unicode (a ∷ s) (b ∷ t) h k =
    ground (arith, equal_fold-upper_hex unicode s t h.1 k.1)

-- What stands before the first zero byte is kept.
pub c_string-append :
    (s : Bytes) (c : ℕ) (t : Bytes)
    → Lacks 0 s
    → c ≢ 0
    → c_string (s ++ c ∷ t) ≡ s ++ c ∷ c_string t
unfolding c_string
c_string-append [] c t h k = ground arith
c_string-append (a ∷ s) c t h k = ground (arith, c_string-append s c t h.1 k)
