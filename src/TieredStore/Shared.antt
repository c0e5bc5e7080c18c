-- ===== src/TieredStore/Shared.antt =====
-- The store of src/auth_store.go under several callers at once: the broker thread in `Get` and the
-- NATS goroutine in `Invalidate` (src/fanout_consumer.go) share L1 without a lock. A `Get` is split
-- where it waits: it reads L2 or L3, and writes L1 later.
pub mod Kept
pub mod Coherence
pub mod Calls
mod Tests
use mapex_mqttbroker.Common.{
  ℕ, zero, suc, ◌+◌, ◌-◌, ◌*◌, ◌/◌, ◌%◌, ◌^◌, ◌≤◌, ◌<◌, min, ◌≡◌, refl, sym, ap, ◌∙◌, subst, ◌≢◌,
  ◌↔◌, ◌⊎◌, inl, inr, Bool, true, false, not, ◌&&◌, ◌||◌, Option, none, some, List, [], ◌∷◌, ◌++◌,
  append_assoc, append-nil, arith, ltb, leb, ◌==◌, if◌then◌else◌, ltb→lt, lt→ltb, ==_iff,
  Bool-cases, Option-cases, length, take, is_empty, length-append, is_empty_iff, All, All-append,
  Bytes, codes, Lacks, same, same_iff, same_refl,
}
use mapex_mqttbroker.Common.Int.{
  ℤ, pos, negsuc, max_int64, is_int, ltz, is_positive, wrap_int64, increment,
}
use mapex_mqttbroker.Entry.{AuthEntry}
use mapex_mqttbroker.Platform.{Platform}
use mapex_mqttbroker.Publisher.Machine.{Pick}
use mapex_mqttbroker.TieredStore.{TieredAuthStore, write_l1, invalidate, close}
use mapex_mqttbroker.TieredStore.Interface.{Pebble}
use mapex_mqttbroker.TieredStore.PebbleJson.{IsText}

-- A `Get` between the answer of L2 or L3 and its `writeL1`.
pub record Fetch : Type 0 where
  pub key : Bytes
  pub entry : AuthEntry

module _ (P : Pebble) (env : Platform) where
  pub record Shared : Type 0 where
    pub store : TieredAuthStore P.Db
    pub now : ℕ
    pub in_flight : List Fetch

  -- `Answers` is what L2 and L3 may answer for a key while the run lasts.
  pub data Step (Answers : Bytes → AuthEntry → Type 0) (c : Shared) : Shared → Type 0 where
    ticks : (now : ℕ) → Step Answers c (record c { now = now })
    -- The counters, and those of the HTTP client.
    counts :
        (s : TieredAuthStore P.Db)
        → s.pebble_db ≡ c.store.pebble_db
        → s.l1_ttl ≡ c.store.l1_ttl
        → Step Answers c (record c { store = s })
    fetches :
        (key : Bytes) (e : AuthEntry)
        → IsText e
        → Answers key e
        → Step Answers c (record c { in_flight = record { key = key; entry = e } ∷ c.in_flight })
    writes :
        (f : Fetch) (rest : List Fetch)
        → Pick f c.in_flight rest
        → Step Answers c
            (record c { store = write_l1 P env c.now c.store f.key f.entry; in_flight = rest })
    invalidates :
        (key : Bytes) → Step Answers c (record c { store = (invalidate P env c.store key).1 })
    closes : Step Answers c (record c { store = (close P env c.store).1 })

  pub data Steps (Answers : Bytes → AuthEntry → Type 0) (c : Shared) : Shared → Type 0 where
    done : Steps Answers c c
    more : {n k : Shared} → Steps Answers c n → Step Answers n k → Steps Answers c k
