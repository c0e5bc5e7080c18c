-- ===== src/Callbacks/Traces.antt =====
-- Any sequence of the callbacks of src/plugin/main.go over one runtime, with what the plugin's
-- goroutines do to it between: workers take jobs from the queue, counters and the store change.
pub mod Sends
pub mod Granted
pub mod Owned
pub mod Sessions
use mapex_mqttbroker.Common.{ℕ, ◌≡◌, ◌≢◌, Option, some, List, ◌∷◌}
use mapex_mqttbroker.AuthStore.{AuthStore, ok}
use mapex_mqttbroker.Callbacks.{
  mosq_err_success, BasicAuthEvent, DisconnectEvent, MessageEvent, go_string, identity,
  on_disconnect, on_message, on_basic_auth,
}
use mapex_mqttbroker.Entry.{AuthEntry}
use mapex_mqttbroker.Fanout.{FanoutConsumer}
use mapex_mqttbroker.Platform.{Platform}
use mapex_mqttbroker.Publisher.{PublishJob, AsyncPublisher}
use mapex_mqttbroker.Runtime.{PluginRuntime}
use mapex_mqttbroker.Session.{SessionInfo}

pub record Trace (State : Type 0) : Type 0 where
  pub runtime : PluginRuntime State
  -- For each admission so far, the device and the organization in the entry that the store returned.
  pub granted : List SessionInfo
  -- The jobs that a worker has taken, the last one first.
  pub taken : List PublishJob

module _ {World : Type 0} (backend : AuthStore World) (env : Platform) where
  pub data Event (t : Trace (backend.State)) : Trace (backend.State) → Type 0 where
    admits :
        (world : World) (ed : BasicAuthEvent) (now : ℕ) (s : backend.State) (e : AuthEntry)
        → t.runtime.store ≡ some s
        → (backend.get world s (identity ed)).0 ≡ ok e
        → (on_basic_auth backend env world t.runtime ed now).0 ≡ mosq_err_success
        → Event t (record {
          runtime = (on_basic_auth backend env world t.runtime ed now).1;
          granted = record { org_id = e.org_id; asset_uuid = identity ed } ∷ t.granted;
          taken = t.taken;
        })
    refuses :
        (world : World) (ed : BasicAuthEvent) (now : ℕ)
        → (on_basic_auth backend env world t.runtime ed now).0 ≢ mosq_err_success
        → Event t (record t { runtime = (on_basic_auth backend env world t.runtime ed now).1 })
    disconnects :
        (ed : DisconnectEvent) (now : ℕ)
        → Event t (record t { runtime = on_disconnect env t.runtime ed now })
    messages :
        (ed : MessageEvent) (now : ℕ)
        → Event t (record t { runtime = on_message env t.runtime ed now })
    takes :
        (job : PublishJob) (rest : List PublishJob)
        → t.runtime.async.queue ≡ job ∷ rest
        → Event t (record t {
          runtime = record (t.runtime) { async = record (t.runtime.async) { queue = rest } };
          taken = job ∷ t.taken;
        })
    -- `Start`, `Drain`, a publishing worker.
    moves :
        (p : AsyncPublisher)
        → p.queue ≡ t.runtime.async.queue
        → Event t (record t { runtime = record (t.runtime) { async = p } })
    -- The fanout consumer, `Close`.
    stores :
        (s : Option (backend.State)) (f : Option FanoutConsumer)
        → Event t (record t { runtime = record (t.runtime) { store = s; fanout = f } })

  pub data Events (t : Trace (backend.State)) : Trace (backend.State) → Type 0 where
    done : Events t t
    more : {u v : Trace (backend.State)} → Events t u → Event u v → Events t v
