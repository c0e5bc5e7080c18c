-- ===== src/Fanout.antt =====
-- src/fanout_consumer.go: the subscriber that invalidates L1.
pub mod Handling
use mapex_mqttbroker.Common.{
  ℕ, Bool, true, false, not, ◌&&◌, Option, none, some, [], if◌then◌else◌, is_empty, Bytes, codes,
}
use mapex_mqttbroker.Common.Int.{increment}
use mapex_mqttbroker.AuthStore.{AuthStore, StoreError}
use mapex_mqttbroker.Config.{default_fanout_invalidate_subject}
use mapex_mqttbroker.Json.{Json, null, bool, num, str, arr, obj, Fields, end, field}
use mapex_mqttbroker.Platform.{Platform}
use mapex_mqttbroker.Projection.{key_is, read_string}
use mapex_mqttbroker.Publisher.{Built, built, refused}

-- `subscribed` says whether `sub` is set.
pub record FanoutConsumer : Type 0 where
  pub subject : Bytes
  pub subscribed : Bool
  pub closed : Bool
  pub processed : ℕ
  pub dropped : ℕ

-- What the getters of the counters return.
abbrev pub processed_count : FanoutConsumer → ℕ
processed_count c = c.processed

abbrev pub dropped_count : FanoutConsumer → ℕ
dropped_count c = c.dropped

pub data FanoutError : Type 0 where
  conn_required store_required already_started is_closed subscribe_failed : FanoutError

-- The first two arguments say whether the connection and the store are set.
unfoldable pub new_fanout_consumer : Bool → Bool → Bytes → Built FanoutConsumer FanoutError
new_fanout_consumer has_conn has_store subject =
    if not has_conn
    then refused conn_required
    else if not has_store
    then refused store_required
    else built (record {
      subject = if is_empty subject then default_fanout_invalidate_subject else subject;
      subscribed = false;
      closed = false;
      processed = 0;
      dropped = 0;
    })

-- The function says whether NATS accepts the subscription.
unfoldable pub start : (Bytes → Bool) → FanoutConsumer → Built FanoutConsumer FanoutError
start subscribe c =
    if c.subscribed
    then refused already_started
    else if c.closed
    then refused is_closed
    else if not (subscribe c.subject)
    then refused subscribe_failed
    else built (record c { subscribed = true })

-- A failure of `Drain` on the subscription is only logged.
unfoldable pub stop : FanoutConsumer → FanoutConsumer
stop c =
    if c.closed
    then c
    else if not c.subscribed
    then record c { closed = true }
    else record c { closed = true; subscribed = false }

module _ (env : Platform) where
  -- `json.Unmarshal` into `FanoutInvalidatePayload`.
  unfoldable pub assign_payload : Fields → Bytes × Bool → Bytes × Bool
  assign_payload end (uuid, fits) = (uuid, fits)
  assign_payload (field key v rest) (uuid, fits) =
      let (uuid', fits') =
        if key_is env key (codes "assetUUID")
        then ((read_string v uuid).0, (read_string v []).1)
        else (uuid, true) in
      assign_payload rest (uuid', fits && fits')

  abbrev finish_payload : Bytes × Bool → Option Bytes
  finish_payload (uuid, true) = some uuid
  finish_payload (uuid, false) = none

  -- `none` is a malformed payload.
  unfoldable pub decode_payload : Option Json → Option Bytes
  decode_payload none = none
  decode_payload (some null) = some []
  decode_payload (some (obj fields)) = finish_payload (assign_payload fields ([], true))
  decode_payload (some (bool _)) = none
  decode_payload (some (num _)) = none
  decode_payload (some (str _)) = none
  decode_payload (some (arr _)) = none

  abbrev pub drop_message : FanoutConsumer → FanoutConsumer
  drop_message c = record c { dropped = increment c.dropped }

  module _ {World : Type 0} (backend : AuthStore World) where
    -- What `Invalidate` returned.
    unfoldable pub count_result : FanoutConsumer → Option StoreError → FanoutConsumer
    count_result c none = record c { processed = increment c.processed }
    count_result c (some e) = drop_message c

    -- One delivered message.
    unfoldable pub handle :
        FanoutConsumer → backend.State → Option Json → FanoutConsumer × backend.State
    handle c s body = elim (decode_payload body) [
      | none ↦ (drop_message c, s)
      | some uuid ↦
          if is_empty uuid
          then (drop_message c, s)
          else let out = backend.invalidate s uuid in (count_result c out.0, out.1)
    ]
