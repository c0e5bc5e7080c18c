-- ===== src/Runtime/Tests.antt =====
-- The ingress path at a concrete message.
use mapex_mqttbroker.Common.{◌≡◌, refl, codes}
use mapex_mqttbroker.Fixtures.{sensor}
use mapex_mqttbroker.Runtime.{valid_subject_token}
use mapex_mqttbroker.Runtime.Ingress.{ingress_subject-injective}

ingress_subject-injective_example : (codes "org1" ≡ codes "org1") × (sensor ≡ sensor)
unfolding valid_subject_token
ingress_subject-injective_example =
    ingress_subject-injective (codes "dev") (codes "org1") (codes "org1") sensor sensor refl refl
      refl
