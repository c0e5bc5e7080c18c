-- ===== src/Acl/Tests.antt =====
-- Runs of src/acl.go, from src/acl_test.go, and the theorems at concrete inputs.
use mapex_mqttbroker.Common.{◌≡◌, refl, ◌↔◌, true, false, codes, Lacks}
use mapex_mqttbroker.Common.Int.{pos}
use mapex_mqttbroker.GoText.{contains_rune, split_n, cut}
use mapex_mqttbroker.Common.{same}
use mapex_mqttbroker.Acl.{parse_username, parse_topic, check_acl, access_read, access_write}
use mapex_mqttbroker.Acl.Topic.{IsUsername}
use mapex_mqttbroker.Acl.Allowed.{MayAccess, check_acl_iff}

-- What a run of `check_acl` computes through.
run : Unit {0}
unfolding check_acl parse_username contains_rune parse_topic split_n cut same
run = tt

publish_events : check_acl (codes "asset1") (codes "events/asset1/temp") (pos access_write) ≡ true
unfolding run
publish_events = refl

publish_commands : check_acl (codes "asset1") (codes "commands/asset1/x") (pos access_write) ≡ false
unfolding run
publish_commands = refl

foreign_topic : check_acl (codes "asset1") (codes "events/asset2/temp") (pos access_write) ≡ false
unfolding run
foreign_topic = refl

check_acl_iff_example :
    (check_acl (codes "a1") (codes "commands/a1/#") (pos access_read) ≡ true) ↔ (
      IsUsername (codes "a1")
      × Lacks b'/' (codes "a1")
      × MayAccess (codes "a1") (codes "commands/a1/#") (pos access_read))
check_acl_iff_example = check_acl_iff (codes "a1") (codes "commands/a1/#") (pos access_read)
