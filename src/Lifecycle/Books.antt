-- ===== src/Lifecycle/Books.antt =====
-- The counters of src/auth_store.go and src/http_auth.go as long as the plugin lives.
use mapex_mqttbroker.Common.{◌+◌, ◌%◌, ◌^◌, ◌≡◌, none, some, arith, Bytes}
use mapex_mqttbroker.HttpAuth.{
  AuthClient, lookup_count, lookup_hit_count, lookup_miss_count, lookup_error_count,
}
use mapex_mqttbroker.Init.Plugin.{Process}
use mapex_mqttbroker.Init.Unused.{IsUnused}
use mapex_mqttbroker.Lifecycle.{Steps}
use mapex_mqttbroker.Lifecycle.Stored.{IsKeptUp, always_holds}
use mapex_mqttbroker.Platform.{Platform}
use mapex_mqttbroker.Runtime.{PluginRuntime}
use mapex_mqttbroker.TieredStore.{
  TieredAuthStore, invalidate, l1_miss_count, l2_hit_count, l3_hit_count, l3_miss_count,
}
use mapex_mqttbroker.TieredStore.Books.{IsSent, get-IsSent, invalidate-IsSent}
use mapex_mqttbroker.TieredStore.Interface.{Pebble}
use mapex_mqttbroker.TieredStore.Layers.{IsServed, get-IsServed}

unused-IsSent : {Db : Type 0} (s : TieredAuthStore Db) → IsUnused s → IsSent 0 s
unused-IsSent s v = record {
  client = v.client;
  reached = v.reached;
  sent = (let (c, d, _) = v.served in let (a, _, _, _) = v.idle in omega arith);
  accounted = (let (a, b, c, d) = v.idle in omega arith);
}

module _ (P : Pebble) (env : Platform) where
  invalidate-IsServed :
      (s : TieredAuthStore P.Db) (key : Bytes)
      → IsServed P env s
      → IsServed P env (invalidate P env s key).1
  unfolding invalidate
  invalidate-IsServed s key h = ground arith

  IsBooked : TieredAuthStore P.Db → Type 0
  IsBooked s = IsServed P env s × IsSent 0 s

  books : IsKeptUp P env IsBooked
  unfolding IsBooked
  books = record {
    begins = λ s v.
        ((let (a, b, _) = v.read in let (c, d, _) = v.served in omega arith), unused-IsSent s v);
    gets = λ world s key (served, sent).
        (get-IsServed P env world s key served, get-IsSent P env world s key sent);
    invalidates = λ s key (served, sent).
        (invalidate-IsServed s key served, invalidate-IsSent P env s key sent);
  }

  -- Whatever the broker calls the plugin with and in whatever order, loads and unloads included: the
  -- runtime's store has an HTTP client, and the counters of the two add up, modulo 2^64. The misses of L1 are
  -- the hits of L2 and the hits and the misses of L3 together; the lookups of the client are the hits
  -- and the misses of L3 together; and the lookups are the client's hits, misses and errors together.
  -- (No runtime is set at the start.)
  pub counters_balanced :
      {p q : Process P.Db} (run : Steps P env p q) (rt : PluginRuntime (TieredAuthStore P.Db))
      (s : TieredAuthStore P.Db)
      → p.runtime ≡ none
      → q.runtime ≡ some rt
      → rt.store ≡ some s
      → (l1_miss_count s % 2 ^ 64 ≡ (l2_hit_count s + l3_hit_count s + l3_miss_count s) % 2 ^ 64)
        × ((c : AuthClient) × (s.l3_client ≡ some c)
            × (lookup_count c % 2 ^ 64 ≡ (l3_hit_count s + l3_miss_count s) % 2 ^ 64)
            × (lookup_count c % 2 ^ 64
                ≡ (lookup_hit_count c + lookup_miss_count c + lookup_error_count c) % 2 ^ 64))
  unfolding IsBooked
  counters_balanced run rt s unset set stored =
      let (served, v) = always_holds P env IsBooked books run rt s unset set stored in
      let sent = v.sent in (served, (v.client, v.reached, omega arith, v.accounted))
