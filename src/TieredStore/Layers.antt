-- ===== src/TieredStore/Layers.antt =====
-- Which layer answers a `Get` of src/auth_store.go, and what `Get` counts.
use mapex_mqttbroker.Common.{
  ℕ, ◌+◌, ◌%◌, ◌^◌, ◌≡◌, refl, ap, ◌∙◌, ◌≢◌, inl, inr, Option, none, some, [], arith, Bool-cases,
  Option-cases, is_empty, is_empty_iff, Bytes,
}
use mapex_mqttbroker.Common.Int.{increment}
use mapex_mqttbroker.AuthStore.{not_found, unavailable, failed, Result, ok, err}
use mapex_mqttbroker.Entry.{AuthEntry}
use mapex_mqttbroker.HttpAuth.{AuthClient, lookup_entry}
use mapex_mqttbroker.Platform.{Platform}
use mapex_mqttbroker.TieredStore.{
  TieredAuthStore, l1_miss_count, l2_hit_count, l3_hit_count, l3_miss_count, read_l1, write_l1,
  read_l2, read_l3, end_l3, fall_back, after_l2, get, invalidate,
}
use mapex_mqttbroker.TieredStore.Interface.{Pebble, World}
use mapex_mqttbroker.TieredStore.PebbleJson.{marshal_pebble_entry}

module _ (P : Pebble) (env : Platform) where
  -- `writeL1` changes the database at most.
  write_l1-counters :
      (now : ℕ) (s : TieredAuthStore P.Db) (key : Bytes) (e : AuthEntry)
      → ((write_l1 P env now s key e).l1_misses ≡ s.l1_misses)
        × ((write_l1 P env now s key e).l2_hits ≡ s.l2_hits)
        × ((write_l1 P env now s key e).l3_hits ≡ s.l3_hits)
        × ((write_l1 P env now s key e).l3_misses ≡ s.l3_misses)
  unfolding write_l1
  write_l1-counters now s key e = elim (Option-cases s.pebble_db) [
    | inl k ↦ rw (k, write_l1) (refl, refl, refl, refl)
    | inr (db, k) ↦
        elim (Option-cases (marshal_pebble_entry env (record { entry = e; cached_at = now }))) [
          | inl k' ↦ rw (k, k', write_l1) (refl, refl, refl, refl)
          | inr (doc, k') ↦ rw (k, k', write_l1) (refl, refl, refl, refl)
        ]
  ]

  pub invalidate_ttl :
      (s : TieredAuthStore P.Db) (key : Bytes) → (invalidate P env s key).1.l1_ttl ≡ s.l1_ttl
  unfolding invalidate
  invalidate_ttl s key = elim (Option-cases s.pebble_db) [
    | inl k ↦ rw (k, invalidate) refl
    | inr (db, k) ↦ elim (Bool-cases (is_empty key)) [
      | inl m ↦ rw (k, m, invalidate) refl
      | inr m ↦ rw (k, m, invalidate) refl
    ]
  ]

  -- What L3 answers: it depends on the client alone.
  abbrev pub third : World → Option AuthClient → Bytes → Result AuthEntry
  third world none key = err unavailable
  third world (some client) key = (lookup_entry env world.http client key).0

  pub read_l3-third :
      (world : World) (s : TieredAuthStore P.Db) (key : Bytes)
      → (read_l3 P env world s key).0 ≡ third world s.l3_client key
  unfolding read_l3
  read_l3-third world s key = elim (Option-cases s.l3_client) [
    | inl e ↦ rw (e, read_l3)
    | inr (c, e) ↦ rw (e, read_l3)
  ]

  -- The contract of the store: the first layer that knows the entry answers; if none does, the error
  -- is L3's, and any error but "not found" makes the store unavailable.
  abbrev pub settle : Result AuthEntry → Result AuthEntry
  settle (ok e) = ok e
  settle (err not_found) = err not_found
  settle (err unavailable) = err unavailable
  settle (err failed) = err unavailable

  abbrev pub layered :
      Option AuthEntry → Result (Option AuthEntry) → Result AuthEntry → Result AuthEntry
  layered (some e) l2 l3 = ok e
  layered none (ok (some e)) l3 = ok e
  layered none (ok none) l3 = settle l3
  layered none (err _) l3 = settle l3

  end_l3-settle :
      (now : ℕ) (s : TieredAuthStore P.Db) (key : Bytes) (r : Result AuthEntry)
      → (end_l3 P env now s key r).0 ≡ settle r
  unfolding end_l3
  end_l3-settle now s key (err not_found) = refl
  end_l3-settle now s key (err unavailable) = refl
  end_l3-settle now s key (err failed) = refl
  end_l3-settle now s key (ok e) = refl

  fall_back-settle :
      (world : World) (s : TieredAuthStore P.Db) (key : Bytes)
      → (fall_back P env world s key).0 ≡ settle (third world s.l3_client key)
  unfolding fall_back
  fall_back-settle world s key =
      end_l3-settle world.now _ key _ ∙ ap settle (read_l3-third world s key)

  after_l2-layered :
      (world : World) (s : TieredAuthStore P.Db) (key : Bytes) (l2 : Result (Option AuthEntry))
      → (after_l2 P env world s key l2).0 ≡ layered none l2 (third world s.l3_client key)
  unfolding after_l2
  after_l2-layered world s key (ok (some e)) = refl
  after_l2-layered world s key (ok none) = fall_back-settle world _ key
  after_l2-layered world s key (err e) = fall_back-settle world _ key

  pub read_l2_missed :
      (world : World) (s : TieredAuthStore P.Db) (key : Bytes) (n : ℕ)
      → read_l2 P env world (record s { l1_misses = n }) key ≡ read_l2 P env world s key
  unfolding read_l2
  read_l2_missed world s key n = refl

  -- For an asset id that is not empty `Get` answers with the entry of L1 if it has one, else with
  -- the entry of L2, and after a miss or an error of L2 with what L3 says: an entry,
  -- `ErrAuthEntryNotFound`, or `ErrAuthStoreUnavailable` for every other error and where there is
  -- no client.
  pub get-layered :
      (world : World) (s : TieredAuthStore P.Db) (key : Bytes)
      → key ≢ []
      → (get P env world s key).0
        ≡ layered
            (read_l1 P env world.now s key)
            (read_l2 P env world s key)
            (third world s.l3_client key)
  unfolding get
  get-layered world s key h = elim (Bool-cases (is_empty key)) [
    | inl e ↦ absurd (h ((is_empty_iff key).0 e))
    | inr e ↦ elim (Option-cases (read_l1 P env world.now s key)) [
      | inl k ↦
          rw (e, k, get)
            (after_l2-layered world (record s { l1_misses = increment s.l1_misses }) key _
              ∙ ap (λ x. layered none x (third world s.l3_client key))
                  (read_l2_missed world s key (increment s.l1_misses)))
      | inr (x, k) ↦ rw (e, k, get)
    ]
  ]

  -- Every miss of L1 is served once: by L2, by L3, or by a refusal of L3. Modulo 2^64.
  abbrev pub IsServed : TieredAuthStore P.Db → Type 0
  IsServed s =
      l1_miss_count s % 2 ^ 64 ≡ (l2_hit_count s + l3_hit_count s + l3_miss_count s) % 2 ^ 64

  -- The same with one miss still to be served.
  abbrev IsServing : TieredAuthStore P.Db → Type 0
  IsServing s =
      l1_miss_count s % 2 ^ 64 ≡ (l2_hit_count s + l3_hit_count s + l3_miss_count s + 1) % 2 ^ 64

  write_l1-IsServed :
      (now : ℕ) (s : TieredAuthStore P.Db) (key : Bytes) (e : AuthEntry)
      → IsServed s
      → IsServed (write_l1 P env now s key e)
  write_l1-IsServed now s key e h = let (a, b, c, d) = write_l1-counters now s key e in omega arith

  read_l3-IsServing :
      (world : World) (s : TieredAuthStore P.Db) (key : Bytes)
      → IsServing s
      → IsServing (read_l3 P env world s key).1
  unfolding read_l3
  read_l3-IsServing world s key h = elim (Option-cases s.l3_client) [
    | inl e ↦ rw (e, read_l3) h
    | inr (c, e) ↦ rw (e, read_l3) h
  ]

  end_l3-IsServed :
      (now : ℕ) (s : TieredAuthStore P.Db) (key : Bytes) (r : Result AuthEntry)
      → IsServing s
      → IsServed (end_l3 P env now s key r).1
  unfolding end_l3
  end_l3-IsServed now s key (err not_found) h = omega arith
  end_l3-IsServed now s key (err unavailable) h = omega arith
  end_l3-IsServed now s key (err failed) h = omega arith
  end_l3-IsServed now s key (ok e) h = write_l1-IsServed now _ key e (omega arith)

  after_l2-IsServed :
      (world : World) (s : TieredAuthStore P.Db) (key : Bytes) (l2 : Result (Option AuthEntry))
      → IsServing s
      → IsServed (after_l2 P env world s key l2).1
  unfolding after_l2 fall_back
  after_l2-IsServed world s key (ok (some e)) h = write_l1-IsServed world.now _ key e (omega arith)
  after_l2-IsServed world s key (ok none) h =
      end_l3-IsServed world.now _ key _ (read_l3-IsServing world _ key h)
  after_l2-IsServed world s key (err e) h =
      end_l3-IsServed world.now _ key _ (read_l3-IsServing world _ key h)

  -- `Get` keeps the account of its counters: L1 misses are L2 hits, L3 hits and L3 misses together,
  -- modulo 2^64.
  pub get-IsServed :
      (world : World) (s : TieredAuthStore P.Db) (key : Bytes)
      → IsServed s
      → IsServed (get P env world s key).1
  unfolding get
  get-IsServed world s key h = elim (Bool-cases (is_empty key)) [
    | inl e ↦ rw (e, get) h
    | inr e ↦ elim (Option-cases (read_l1 P env world.now s key)) [
      | inl k ↦ rw (e, k, get) (after_l2-IsServed world _ key _ (omega arith))
      | inr (x, k) ↦ rw (e, k, get) h
    ]
  ]
