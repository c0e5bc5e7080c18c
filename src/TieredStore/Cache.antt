-- ===== src/TieredStore/Cache.antt =====
-- The L1 cache of src/auth_store.go: what was written is served until it expires or is invalidated.
use mapex_mqttbroker.Common.{
  ℕ, ◌≡◌, refl, ap, ◌∙◌, ◌≢◌, inl, inr, true, false, Option, none, some, [], arith, if◌then◌else◌,
  Option-cases, is_empty, is_empty_iff, Bytes,
}
use mapex_mqttbroker.Common.Int.{ltz, increment}
use mapex_mqttbroker.AuthStore.{not_found, unavailable, failed, Result, ok, err}
use mapex_mqttbroker.Entry.{AuthEntry}
use mapex_mqttbroker.Json.{Json}
use mapex_mqttbroker.Platform.{Platform, ReadsTime}
use mapex_mqttbroker.TieredStore.{
  TieredAuthStore, since, fresh_entry, read_value, read_l1, write_l1, read_l2, read_l3, end_l3,
  fall_back, after_l2, get, invalidate,
}
use mapex_mqttbroker.TieredStore.Interface.{Pebble, PebbleLaws, World}
use mapex_mqttbroker.TieredStore.Layers.{third, layered, get-layered}
use mapex_mqttbroker.TieredStore.PebbleJson.{
  IsText, marshal_pebble_entry, unmarshal-marshal_pebble_entry,
}

module _ (P : Pebble) (laws : PebbleLaws P) (env : Platform) where
  -- A write reaches the database: there is one, the time can be rendered, and the set succeeds.
  abbrev pub Writes : ℕ → TieredAuthStore P.Db → Bytes → AuthEntry → Type 0
  Writes now s key e =
      (db : P.Db) × (doc : Json) × (s.pebble_db ≡ some db)
      × (marshal_pebble_entry env (record { entry = e; cached_at = now }) ≡ some doc)
      × ((P.set db key doc).0 ≡ true)

  -- An entry written to L1 is read back under its key until it is older than the TTL, and not
  -- after. (Pebble is open and takes the write, times that are rendered are read back, and the
  -- entry's strings are UTF-8.)
  pub read_l1-write_l1 :
      (now later : ℕ) (s : TieredAuthStore P.Db) (key : Bytes) (e : AuthEntry)
      → ReadsTime env
      → IsText e
      → Writes now s key e
      → read_l1 P env later (write_l1 P env now s key e) key
        ≡ (if ltz s.l1_ttl (since later now) then none else some e)
  unfolding read_l1 write_l1 read_value fresh_entry
  read_l1-write_l1 now later s key e reads h (db, doc, has_db, marshalled, done) =
      rw (has_db, marshalled, write_l1, laws.get-set db key doc done)
        (rw (unmarshal-marshal_pebble_entry env e now doc reads h marshalled, fresh_entry) refl)

  -- `s'` has the database and the TTL of `s`, and the entry was written to it.
  record Warmed (now : ℕ) (s t : TieredAuthStore P.Db) (key : Bytes) (e : AuthEntry) : Type 0 where
    counted : TieredAuthStore P.Db
    same_db : counted.pebble_db ≡ s.pebble_db
    same_ttl : counted.l1_ttl ≡ s.l1_ttl
    written : t ≡ write_l1 P env now counted key e

  read_l3_keeps :
      (world : World) (s : TieredAuthStore P.Db) (key : Bytes)
      → ((read_l3 P env world s key).1.pebble_db ≡ s.pebble_db)
        × ((read_l3 P env world s key).1.l1_ttl ≡ s.l1_ttl)
  unfolding read_l3
  read_l3_keeps world s key = elim (Option-cases s.l3_client) [
    | inl e ↦ rw (e, read_l3) (refl, refl)
    | inr (c, e) ↦ rw (e, read_l3) (refl, refl)
  ]

  end_l3_warms :
      (now : ℕ) (s : TieredAuthStore P.Db) (key : Bytes) (r : Result AuthEntry) (e : AuthEntry)
      → (end_l3 P env now s key r).0 ≡ ok e
      → Warmed now s (end_l3 P env now s key r).1 key e
  unfolding end_l3
  end_l3_warms now s key (ok x) e h = record {
    counted = record s { l3_hits = increment s.l3_hits };
    same_db = refl;
    same_ttl = refl;
    written = ap (write_l1 P env now (record s { l3_hits = increment s.l3_hits }) key) (cc);
  }
  end_l3_warms now s key (err not_found) e h = absurd (ground arith)
  end_l3_warms now s key (err unavailable) e h = absurd (ground arith)
  end_l3_warms now s key (err failed) e h = absurd (ground arith)

  fall_back_warms :
      (world : World) (s : TieredAuthStore P.Db) (key : Bytes) (e : AuthEntry)
      → (fall_back P env world s key).0 ≡ ok e
      → Warmed world.now s (fall_back P env world s key).1 key e
  unfolding fall_back
  fall_back_warms world s key e h =
      let (db, ttl) = read_l3_keeps world s key in
      let w =
        end_l3_warms world.now (read_l3 P env world s key).1 key (read_l3 P env world s key).0 e
          h in
      record {
        counted = w.counted;
        same_db = w.same_db ∙ db;
        same_ttl = w.same_ttl ∙ ttl;
        written = w.written;
      }

  Warmed-of :
      (now : ℕ) (s s' t : TieredAuthStore P.Db) (key : Bytes) (e : AuthEntry)
      → s'.pebble_db ≡ s.pebble_db
      → s'.l1_ttl ≡ s.l1_ttl
      → Warmed now s' t key e
      → Warmed now s t key e
  Warmed-of now s s' t key e db ttl w = record {
    counted = w.counted;
    same_db = w.same_db ∙ db;
    same_ttl = w.same_ttl ∙ ttl;
    written = w.written;
  }

  after_l2_warms :
      (world : World) (s : TieredAuthStore P.Db) (key : Bytes) (l2 : Result (Option AuthEntry))
      (e : AuthEntry)
      → (after_l2 P env world s key l2).0 ≡ ok e
      → Warmed world.now s (after_l2 P env world s key l2).1 key e
  unfolding after_l2
  after_l2_warms world s key (ok (some x)) e h = record {
    counted = record s { l2_hits = increment s.l2_hits };
    same_db = refl;
    same_ttl = refl;
    written = ap (write_l1 P env world.now (record s { l2_hits = increment s.l2_hits }) key) (cc);
  }
  after_l2_warms world s key (ok none) e h =
      Warmed-of world.now s _ _ key e refl refl (fall_back_warms world _ key e h)
  after_l2_warms world s key (err x) e h =
      Warmed-of world.now s _ _ key e refl refl (fall_back_warms world _ key e h)

  get_warms :
      (world : World) (s : TieredAuthStore P.Db) (key : Bytes) (e : AuthEntry)
      → key ≢ []
      → read_l1 P env world.now s key ≡ none
      → (get P env world s key).0 ≡ ok e
      → Warmed world.now s (get P env world s key).1 key e
  unfolding get
  get_warms world s key e h missed =
      let full : is_empty key ≡ false = ground (arith, is_empty_iff key) in
      rw (full, missed, get)
        (λ k. Warmed-of world.now s _ _ key e refl refl (after_l2_warms world _ key _ e k))

  -- Whatever the network answers by then: if L1 did not know an asset, and `Get` found its entry
  -- in L2 or L3, then the next `Get` of it returns the same entry, as long as no more than the TTL
  -- has passed. (Pebble is open and takes the write, times that are rendered are read back, the
  -- entry's strings are UTF-8, and the asset id is not empty.)
  pub get_again :
      (world world' : World) (s : TieredAuthStore P.Db) (key : Bytes) (e : AuthEntry)
      → ReadsTime env
      → IsText e
      → Writes world.now s key e
      → key ≢ []
      → read_l1 P env world.now s key ≡ none
      → (get P env world s key).0 ≡ ok e
      → ltz s.l1_ttl (since world'.now world.now) ≡ false
      → (get P env world' (get P env world s key).1 key).0 ≡ ok e
  get_again world world' s key e reads h (db, doc, has_db, marshalled, done) full missed found
        fresh =
      let w = get_warms world s key e full missed found in
      let cached : read_l1 P env world'.now (get P env world s key).1 key ≡ some e =
        ap (λ t. read_l1 P env world'.now t key) w.written
        ∙ read_l1-write_l1 world.now world'.now w.counted key e reads h
            (db, doc, w.same_db ∙ has_db, marshalled, done)
        ∙ rw (w.same_ttl, fresh) in
      get-layered P env world' (get P env world s key).1 key full ∙ rw cached

  read_l1-invalidate :
      (now : ℕ) (s : TieredAuthStore P.Db) (key : Bytes) (db : P.Db)
      → key ≢ []
      → s.pebble_db ≡ some db
      → (P.delete db key).0 ≡ true
      → read_l1 P env now (invalidate P env s key).1 key ≡ none
  unfolding read_l1 invalidate read_value
  read_l1-invalidate now s key db h has_db done =
      let full : is_empty key ≡ false = ground (arith, is_empty_iff key) in
      rw (has_db, full, invalidate, laws.get-delete db key done)

  -- An invalidation is of no concern to the layers below.
  invalidate_below :
      (world : World) (s : TieredAuthStore P.Db) (key : Bytes) (db : P.Db)
      → key ≢ []
      → s.pebble_db ≡ some db
      → layered P env none
          (read_l2 P env world (invalidate P env s key).1 key)
          (third P env world (invalidate P env s key).1.l3_client key)
        ≡ layered P env none (read_l2 P env world s key) (third P env world s.l3_client key)
  unfolding invalidate read_l2
  invalidate_below world s key db h has_db =
      let full : is_empty key ≡ false = ground (arith, is_empty_iff key) in
      let same_store : (invalidate P env s key).1 ≡ record s {
        invalidations = increment s.invalidations;
        pebble_db = some (P.delete db key).1;
      } =
        rw (has_db, full, invalidate) in
      ap (λ t. layered P env none (read_l2 P env world t key) (third P env world t.l3_client key))
        same_store

  -- After an invalidation of an asset id that is not empty, which Pebble carried out, the next
  -- `Get` of it answers as L2 and L3 do, whatever L1 held.
  pub get-invalidate :
      (world : World) (s : TieredAuthStore P.Db) (key : Bytes) (db : P.Db)
      → key ≢ []
      → s.pebble_db ≡ some db
      → (P.delete db key).0 ≡ true
      → (get P env world (invalidate P env s key).1 key).0
        ≡ layered P env none (read_l2 P env world s key) (third P env world s.l3_client key)
  get-invalidate world s key db h has_db done =
      get-layered P env world (invalidate P env s key).1 key h
      ∙ rw (
        read_l1-invalidate world.now s key db h has_db done,
        invalidate_below world s key db h has_db,
      )
