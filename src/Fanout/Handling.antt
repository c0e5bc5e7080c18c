-- ===== src/Fanout/Handling.antt =====
-- What the handler of src/fanout_consumer.go does to the cache, and the life of a consumer.
use mapex_mqttbroker.Common.{
  ◌≡◌, refl, ◌≢◌, ◌⊎◌, inl, inr, Bool, true, false, Option, none, some, [], arith, Bool-cases,
  Option-cases, is_empty, is_empty_iff, Bytes,
}
use mapex_mqttbroker.Common.Int.{increment}
use mapex_mqttbroker.AuthStore.{AuthStore}
use mapex_mqttbroker.Fanout.{
  FanoutConsumer, processed_count, dropped_count, is_closed, start, stop, decode_payload,
  count_result, handle,
}
use mapex_mqttbroker.Json.{Json}
use mapex_mqttbroker.Platform.{Platform}
use mapex_mqttbroker.Publisher.{refused}
use mapex_mqttbroker.TieredStore.{TieredAuthStore, read_l2, get, tiered}
use mapex_mqttbroker.TieredStore.Cache.{get-invalidate}
use mapex_mqttbroker.TieredStore.Interface.{Pebble, PebbleLaws, World}
use mapex_mqttbroker.TieredStore.Layers.{third, layered}

-- Every delivered message is counted once, as processed or as dropped, modulo 2^64.
handle_counts :
    {W : Type 0} (env : Platform) (backend : AuthStore W) (c : FanoutConsumer) (s : backend.State)
    (body : Option Json)
    → let c' = (handle env backend c s body).0 in
      ((processed_count c' ≡ increment (processed_count c)) × (dropped_count c' ≡ dropped_count c))
      ⊎ ((processed_count c' ≡ processed_count c)
          × (dropped_count c' ≡ increment (dropped_count c)))
unfolding handle count_result
handle_counts env backend c s body = elim (Option-cases (decode_payload env body)) [
  | inl e ↦ rw (e, handle) (inr (refl, refl))
  | inr (uuid, e) ↦ elim (Bool-cases (is_empty uuid)) [
    | inl k ↦ rw (e, k, handle) (inr (refl, refl))
    | inr k ↦ elim (Option-cases (backend.invalidate s uuid).0) [
      | inl r ↦ rw (e, k, r, handle) (inl (refl, refl))
      | inr (x, r) ↦ rw (e, k, r, handle) (inr (refl, refl))
    ]
  ]
]

-- After a message that names an asset, by an id that is not empty, whose L1 entry Pebble then
-- deletes, `Get` answers for that asset as L2 and L3 do.
handle_then_get :
    (P : Pebble) (laws : PebbleLaws P) (env : Platform) (world : World) (c : FanoutConsumer)
    (s : TieredAuthStore P.Db) (body : Option Json) (uuid : Bytes) (db : P.Db)
    → decode_payload env body ≡ some uuid
    → uuid ≢ []
    → s.pebble_db ≡ some db
    → (P.delete db uuid).0 ≡ true
    → (get P env world (handle env (tiered P env) c s body).1 uuid).0
      ≡ layered P env none (read_l2 P env world s uuid) (third P env world s.l3_client uuid)
unfolding handle
handle_then_get P laws env world c s body uuid db named full has_db done =
    let e : is_empty uuid ≡ false = ground (arith, is_empty_iff uuid) in
    rw (named, e, handle) (get-invalidate P laws env world s uuid db full has_db done)

-- A consumer that has no subscription once it is closed stays stopped after `Stop`: it has no
-- subscription, a second `Stop` changes nothing, and `Start` refuses it, whatever NATS would say.
stop-start :
    (subscribe : Bytes → Bool) (c : FanoutConsumer)
    → (c.closed ≡ true → c.subscribed ≡ false)
    → ((stop c).subscribed ≡ false)
      × (stop (stop c) ≡ stop c)
      × (start subscribe (stop c) ≡ refused is_closed)
unfolding start stop
stop-start subscribe c h = ground arith
