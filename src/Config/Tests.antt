-- ===== src/Config/Tests.antt =====
-- The options of a small deployment, and the theorems on them.
use mapex_mqttbroker.Common.{◌≡◌, refl, ◌↔◌, [], ◌∷◌, Bytes, codes, same}
use mapex_mqttbroker.Common.Int.{pos}
use mapex_mqttbroker.Fixtures.{platform}
use mapex_mqttbroker.GoText.Decimal.{atoi}
use mapex_mqttbroker.GoText.Trim.{trim_space}
use mapex_mqttbroker.Config.{
  Options, Config, loaded, invalid, nats_url_required, get, int_or_default, positive_or, config_of,
  load_config,
}
use mapex_mqttbroker.Config.Required.{
  IsRunnable, Refusal, load_config-eq-invalid_iff, load_config-IsRunnable,
}

-- What reading a number computes through.
config_run : Unit {0}
unfolding get trim_space same int_or_default positive_or atoi
config_run = tt

abbrev options : Options
options =
    (codes "nats_url", codes " nats://nats:4222")
    ∷ (codes "auth_url", codes "http://assets")
    ∷ (codes "auth_api_key", codes "key")
    ∷ []

load_config-eq-invalid_iff_example :
    (load_config platform [] ≡ invalid nats_url_required) ↔ Refusal [] nats_url_required
load_config-eq-invalid_iff_example = load_config-eq-invalid_iff platform [] nats_url_required

abbrev loaded_config : Config
loaded_config =
    config_of platform options (codes "nats://nats:4222") (codes "http://assets") (codes "key")

load_config-options : load_config platform options ≡ loaded loaded_config
unfolding load_config get trim_space same
load_config-options = refl

load_config-IsRunnable_example : IsRunnable options loaded_config
load_config-IsRunnable_example =
    load_config-IsRunnable platform options loaded_config load_config-options

-- A TTL in minutes, as the operator writes it.
abbrev ttl_option : Bytes → Options
ttl_option minutes = (codes "cache_l1_ttl_minutes", minutes) ∷ []

thirty_minutes :
    int_or_default (ttl_option (codes "30")) (codes "cache_l1_ttl_minutes") (pos 0) ≡ pos 30
unfolding config_run
thirty_minutes = refl

too_many_minutes :
    int_or_default (ttl_option (codes "200000000")) (codes "cache_l1_ttl_minutes") (pos 0)
    ≡ pos 200_000_000
unfolding config_run
too_many_minutes = refl
