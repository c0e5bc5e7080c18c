-- ===== src/TieredStore/Shared/Coherence.antt =====
-- Whether an invalidation holds against the `Get`s of other threads.
use mapex_mqttbroker.Common.{
  ℕ, ◌≡◌, refl, sym, ap, ◌∙◌, ◌≢◌, ◌⊎◌, inl, inr, true, false, none, some, List, [], ◌∷◌, arith,
  if◌then◌else◌, Bool-cases, is_empty, is_empty_iff, All, Bytes, same, same_iff,
}
use mapex_mqttbroker.Common.Int.{ltz}
use mathlib.Core.Option.{none-ne-some}
use mapex_mqttbroker.Entry.{AuthEntry}
use mapex_mqttbroker.Platform.{Platform, ReadsTime}
use mapex_mqttbroker.Publisher.Machine.{here}
use mapex_mqttbroker.TieredStore.{TieredAuthStore, since, read_l1, write_l1, invalidate}
use mapex_mqttbroker.TieredStore.Cache.{Writes, read_l1-write_l1}
use mapex_mqttbroker.TieredStore.Layers.{invalidate_ttl}
use mapex_mqttbroker.TieredStore.Interface.{Pebble, PebbleLaws, PebbleFrame, missing}
use mapex_mqttbroker.TieredStore.PebbleJson.{IsText}
use mapex_mqttbroker.TieredStore.Shared.{Fetch, Shared, Steps, fetches, writes, done, more}
use mapex_mqttbroker.TieredStore.Shared.Kept.{stored, Keeps, Kept, IsAnswered, serves_answered}

module _ (P : Pebble) (laws : PebbleLaws P) (frame : PebbleFrame P) (env : Platform) where
  abbrev pub after_invalidate : Shared P env → Bytes → Shared P env
  after_invalidate c key = record c { store = (invalidate P env c.store key).1 }

  -- From here on L2 and L3 answer for the key only as `Current` says.
  abbrev pub Renewed : Bytes → (AuthEntry → Type 0) → Bytes → AuthEntry → Type 0
  Renewed key Current k e = (k ≢ key) ⊎ Current e

  Keeps-delete_key :
      (db : P.Db) (key : Bytes) (Current : AuthEntry → Type 0)
      → (P.delete db key).0 ≡ true
      → Keeps P frame env (Renewed key Current) (P.delete db key).1
  unfolding stored
  Keeps-delete_key db key Current deleted k pe e = elim (Bool-cases (same k key)) [
    | inr other ↦ inl (λ q. cc (other, (same_iff k key).1 q))
    | inl equal ↦
        let gone : P.get (P.delete db key).1 k ≡ missing =
          ap (P.get (P.delete db key).1) ((same_iff k key).0 equal)
          ∙ laws.get-delete db key deleted in
        absurd (none-ne-some pe (ap (stored env) (sym gone) ∙ e))
  ]

  pub invalidate-Kept_key :
      (s : TieredAuthStore P.Db) (key : Bytes) (db : P.Db) (Current : AuthEntry → Type 0)
      → key ≢ []
      → s.pebble_db ≡ some db
      → (P.delete db key).0 ≡ true
      → Kept P frame env (Renewed key Current) (invalidate P env s key).1
  unfolding invalidate
  invalidate-Kept_key s key db Current full has_db deleted =
      let e : is_empty key ≡ false = ground (arith, is_empty_iff key) in
      rw (has_db, e, invalidate) (Keeps-delete_key db key Current deleted)

  -- The `Get`s in flight are of other keys.
  abbrev pub Elsewhere : Bytes → List Fetch → Type 0
  Elsewhere key = All (λ f. (f.key ≢ key) × IsText f.entry)

  pub Elsewhere-IsAnswered :
      (key : Bytes) (Current : AuthEntry → Type 0) (fs : List Fetch)
      → Elsewhere key fs
      → All (IsAnswered P frame env (Renewed key Current)) fs
  Elsewhere-IsAnswered key Current [] h = tt
  Elsewhere-IsAnswered key Current (f ∷ fs) ((k, text), hs) =
      ((text, inl k), Elsewhere-IsAnswered key Current fs hs)

  -- Coherence: if Pebble carries out an invalidation while no `Get` of the key is between its read
  -- of L2 or L3 and its write of L1, then however the store is used afterwards, L1 serves for the
  -- key only what L2 or L3 answered after the invalidation, never what it held before.
  invalidate_coherent :
      (c : Shared P env) {n : Shared P env} (key : Bytes) (db : P.Db) (Current : AuthEntry → Type 0)
      (later : ℕ) (e : AuthEntry)
      → ReadsTime env
      → key ≢ []
      → c.store.pebble_db ≡ some db
      → (P.delete db key).0 ≡ true
      → Elsewhere key c.in_flight
      → Steps P env (Renewed key Current) (after_invalidate c key) n
      → read_l1 P env later n.store key ≡ some e
      → Current e
  invalidate_coherent c {n} key db Current later e reads full has_db deleted idle r served =
      elim (serves_answered P frame env (Renewed key Current) later key e reads
        (record {
          kept = invalidate-Kept_key c.store key db Current full has_db deleted;
          answered = Elsewhere-IsAnswered key Current c.in_flight idle;
        })
        r served) [ inl other ↦ absurd (other refl) | inr current ↦ current ]

  -- The race: where a `Get` has read an entry and not yet written it when the key is invalidated,
  -- its write brings the entry back, and L1 serves it until it is older than the TTL, whatever L2
  -- and L3 answer by then. (Pebble takes the write, times that are rendered are read back, and the
  -- entry's strings are UTF-8.)
  pub invalidate_overtaken :
      (Answers : Bytes → AuthEntry → Type 0) (c : Shared P env) (key : Bytes) (old : AuthEntry)
      (later : ℕ)
      → ReadsTime env
      → IsText old
      → Answers key old
      → Writes P laws env c.now (invalidate P env c.store key).1 key old
      → let fetched = record c { in_flight = record { key = key; entry = old } ∷ c.in_flight } in
        (n : Shared P env) × Steps P env Answers c fetched
        × Steps P env Answers (after_invalidate fetched key) n
        × (read_l1 P env later n.store key
            ≡ (if ltz c.store.l1_ttl (since later c.now) then none else some old))
  invalidate_overtaken Answers c key old later reads text answered w = (
    record c { store = write_l1 P env c.now (invalidate P env c.store key).1 key old },
    more done (fetches key old text answered),
    more done (writes (record { key = key; entry = old }) c.in_flight here),
    read_l1-write_l1 P laws env c.now later (invalidate P env c.store key).1 key old reads text w
        ∙ ap (λ ttl. if ltz ttl (since later c.now) then none else some old)
            (invalidate_ttl P env c.store key),
  )
