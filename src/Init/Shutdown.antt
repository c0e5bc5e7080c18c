-- ===== src/Init/Shutdown.antt =====
-- What `mosquitto_plugin_cleanup` leaves behind.
use mapex_mqttbroker.Common.{◌≡◌, refl, ap, false, Option, none, some, arith}
use mathlib.Core.Option
use mathlib.Core.Option.{some-injective, some-ne-none}
use mapex_mqttbroker.Callbacks.{mosq_err_success}
use mapex_mqttbroker.Fanout
use mapex_mqttbroker.Fanout.{FanoutConsumer}
use mapex_mqttbroker.Init.Plugin.{Process, shut_down, mosquitto_plugin_cleanup}
use mapex_mqttbroker.Platform.{Platform}
use mapex_mqttbroker.Publisher.{PublishJob, AsyncPublisher, enqueue, close_queue, drop_no_start}
use mapex_mqttbroker.Runtime.{PluginRuntime}
use mapex_mqttbroker.TieredStore
use mapex_mqttbroker.TieredStore.{TieredAuthStore, read_l1}
use mapex_mqttbroker.TieredStore.Interface.{Pebble}

enqueue-close_queue :
    (p : AsyncPublisher) (job : PublishJob)
    → ((enqueue (close_queue p) job).0 ≡ false) × ((enqueue (close_queue p) job).1.queue ≡ p.queue)
unfolding enqueue close_queue drop_no_start
enqueue-close_queue p job = ground arith

stop_again : (c : FanoutConsumer) → Fanout.stop (Fanout.stop c) ≡ Fanout.stop c
unfolding Fanout.stop
stop_again c = ground arith

close_queue_again : (p : AsyncPublisher) → close_queue (close_queue p) ≡ close_queue p
unfolding close_queue
close_queue_again p = ground arith

stop_again_in :
    (o : Option FanoutConsumer)
    → Option.map Fanout.stop (Option.map Fanout.stop o) ≡ Option.map Fanout.stop o
stop_again_in none = refl
stop_again_in (some c) = ap some (stop_again c)

module _ (P : Pebble) (env : Platform) where
  close_closed : (s : TieredAuthStore P.Db) → s.pebble_db ≡ none → (TieredStore.close P env s).1 ≡ s
  unfolding TieredStore.close
  close_closed s e = ground arith

  close_closes : (s : TieredAuthStore P.Db) → (TieredStore.close P env s).1.pebble_db ≡ none
  unfolding TieredStore.close
  close_closes s = ground arith

  close_again :
      (s : TieredAuthStore P.Db)
      → (TieredStore.close P env (TieredStore.close P env s).1).1 ≡ (TieredStore.close P env s).1
  close_again s = close_closed (TieredStore.close P env s).1 (close_closes s)

  close_again_in :
      (o : Option (TieredAuthStore P.Db))
      → Option.map
          (λ s. (TieredStore.close P env s).1)
          (Option.map (λ s. (TieredStore.close P env s).1) o)
        ≡ Option.map (λ s. (TieredStore.close P env s).1) o
  close_again_in none = refl
  close_again_in (some s) = ap some (close_again s)

  shut_down_quiet :
      (rt : PluginRuntime (TieredAuthStore P.Db)) (job : PublishJob)
      → let rt' = shut_down P env rt in
        ((enqueue rt'.async job).0 ≡ false)
        × ((enqueue rt'.async job).1.queue ≡ rt.async.queue)
        × (shut_down P env rt' ≡ rt')
  unfolding shut_down
  shut_down_quiet rt job =
      let (refused, kept) = enqueue-close_queue rt.async job in
      (
        refused,
        kept,
        cc (stop_again_in rt.fanout, close_again_in rt.store, close_queue_again rt.async),
      )

  pub cleanup_running :
      (proc : Process P.Db) (rt : PluginRuntime (TieredAuthStore P.Db))
      → proc.runtime ≡ some rt
      → ((mosquitto_plugin_cleanup P env proc).1.runtime ≡ none)
        × ((mosquitto_plugin_cleanup P env proc).2 ≡ some (shut_down P env rt))
  unfolding mosquitto_plugin_cleanup
  cleanup_running proc rt e = rw (e, mosquitto_plugin_cleanup) (refl, refl)

  pub cleanup_stopped :
      (proc : Process P.Db)
      → proc.runtime ≡ none
      → mosquitto_plugin_cleanup P env proc ≡ (mosq_err_success, proc, none)
  unfolding mosquitto_plugin_cleanup
  cleanup_stopped proc e = ground arith

  -- After a cleanup of a running plugin no runtime is set, so that a second cleanup does nothing; and
  -- the runtime that was set, which a callback may still hold, refuses every job, keeps the jobs that
  -- were queued for the workers, and a second shutdown would not change it.
  pub mosquitto_plugin_cleanup_lem :
      (proc : Process P.Db) (rt : PluginRuntime (TieredAuthStore P.Db)) (job : PublishJob)
      → proc.runtime ≡ some rt
      → let out = mosquitto_plugin_cleanup P env proc in
        (out.1.runtime ≡ none)
        × (mosquitto_plugin_cleanup P env out.1 ≡ (mosq_err_success, out.1, none))
        × (left : PluginRuntime (TieredAuthStore P.Db)) × (out.2 ≡ some left)
        × ((enqueue left.async job).0 ≡ false)
        × ((enqueue left.async job).1.queue ≡ rt.async.queue)
        × (shut_down P env left ≡ left)
  mosquitto_plugin_cleanup_lem proc rt job e =
      let (cleared, kept) = cleanup_running proc rt e in
      let (refused, queued, quiet) = shut_down_quiet rt job in
      (
        cleared,
        cleanup_stopped (mosquitto_plugin_cleanup P env proc).1 cleared,
        shut_down P env rt,
        kept,
        refused,
        queued,
        quiet,
      )
