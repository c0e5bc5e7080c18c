-- ===== src/TieredStore/Books.antt =====
-- What the counters of src/auth_store.go and of its HTTP client of src/http_auth.go add up to.
use mapex_mqttbroker.Common.{
  ℕ, ◌+◌, ◌%◌, ◌^◌, ◌≡◌, refl, sym, ◌∙◌, subst, inl, inr, false, Option, none, some, arith,
  Bool-cases, Option-cases, is_empty, Bytes,
}
use mapex_mqttbroker.Common.Int.{increment}
use mapex_mqttbroker.AuthStore.{not_found, unavailable, failed, Result, ok, err}
use mapex_mqttbroker.Entry.{AuthEntry}
use mapex_mqttbroker.HttpAuth.{
  AuthClient, IsAccounted, lookup_count, lookup_entry, lookup_entry-IsAccounted, lookup_entry_sent,
}
use mapex_mqttbroker.Platform.{Platform}
use mapex_mqttbroker.TieredStore.{
  TieredAuthStore, l3_hit_count, l3_miss_count, read_l1, write_l1, read_l3, end_l3, fall_back,
  after_l2, get, invalidate,
}
use mapex_mqttbroker.TieredStore.Interface.{Pebble, World}
use mapex_mqttbroker.TieredStore.PebbleJson.{marshal_pebble_entry}

-- There is a client, which keeps its own account, and it has sent one lookup for each hit and each
-- miss of L3, and `n` more. Modulo 2^64.
pub record IsSent {Db : Type 0} (n : ℕ) (s : TieredAuthStore Db) : Type 0 where
  pub client : AuthClient
  pub reached : s.l3_client ≡ some client
  pub sent : lookup_count client % 2 ^ 64 ≡ (l3_hit_count s + l3_miss_count s + n) % 2 ^ 64
  pub accounted : IsAccounted client

-- A store with the same client, whose own counters have moved.
moved :
    {Db : Type 0} {n n' : ℕ} (s t : TieredAuthStore Db)
    → IsSent n s
    → t.l3_client ≡ s.l3_client
    → (l3_hit_count t + l3_miss_count t + n') % 2 ^ 64
      ≡ (l3_hit_count s + l3_miss_count s + n) % 2 ^ 64
    → IsSent n' t
moved s t h same sent = record {
  client = h.client;
  reached = same ∙ h.reached;
  sent = h.sent ∙ sym sent;
  accounted = h.accounted;
}

module _ (P : Pebble) (env : Platform) where
  write_l1_rest :
      (now : ℕ) (s : TieredAuthStore P.Db) (key : Bytes) (e : AuthEntry)
      → (db : Option P.Db) × (write_l1 P env now s key e ≡ record s { pebble_db = db })
  unfolding write_l1
  write_l1_rest now s key e = elim (Option-cases s.pebble_db) [
    | inl k ↦ rw (k, write_l1) (s.pebble_db, refl)
    | inr (db, k) ↦
        elim (Option-cases (marshal_pebble_entry env (record { entry = e; cached_at = now }))) [
          | inl k' ↦ rw (k, k', write_l1) (s.pebble_db, refl)
          | inr (doc, k') ↦ rw (k, k', write_l1) (_, refl)
        ]
  ]

  write_l1-IsSent :
      (now : ℕ) (s : TieredAuthStore P.Db) (key : Bytes) (e : AuthEntry)
      → IsSent 0 s
      → IsSent 0 (write_l1 P env now s key e)
  write_l1-IsSent now s key e h =
      let (db, k) = write_l1_rest now s key e in subst (IsSent 0) (sym k) (moved _ _ h refl refl)

  read_l3-IsSent :
      (world : World) (s : TieredAuthStore P.Db) (key : Bytes)
      → is_empty key ≡ false
      → IsSent 0 s
      → IsSent 1 (read_l3 P env world s key).1
  unfolding read_l3
  read_l3-IsSent world s key some_key h =
      let looked = lookup_entry_sent env world.http h.client key some_key in
      let sent = h.sent in
      rw (h.reached, read_l3)
        (record {
          client = (lookup_entry env world.http h.client key).1;
          reached = refl;
          sent = (omega (arith, looked));
          accounted = lookup_entry-IsAccounted env world.http h.client key h.accounted;
        })

  end_l3-IsSent :
      (now : ℕ) (s : TieredAuthStore P.Db) (key : Bytes) (r : Result AuthEntry)
      → IsSent 1 s
      → IsSent 0 (end_l3 P env now s key r).1
  unfolding end_l3
  end_l3-IsSent now s key (err not_found) h = moved s _ h refl (omega arith)
  end_l3-IsSent now s key (err unavailable) h = moved s _ h refl (omega arith)
  end_l3-IsSent now s key (err failed) h = moved s _ h refl (omega arith)
  end_l3-IsSent now s key (ok e) h = write_l1-IsSent now _ key e (moved s _ h refl (omega arith))

  fall_back-IsSent :
      (world : World) (s : TieredAuthStore P.Db) (key : Bytes)
      → is_empty key ≡ false
      → IsSent 0 s
      → IsSent 0 (fall_back P env world s key).1
  unfolding fall_back
  fall_back-IsSent world s key some_key h =
      end_l3-IsSent world.now _ key _ (read_l3-IsSent world s key some_key h)

  after_l2-IsSent :
      (world : World) (s : TieredAuthStore P.Db) (key : Bytes) (l2 : Result (Option AuthEntry))
      → is_empty key ≡ false
      → IsSent 0 s
      → IsSent 0 (after_l2 P env world s key l2).1
  unfolding after_l2
  after_l2-IsSent world s key (ok (some e)) some_key h =
      write_l1-IsSent world.now _ key e (moved _ _ h refl refl)
  after_l2-IsSent world s key (ok none) some_key h =
      fall_back-IsSent world _ key some_key (moved _ _ h refl refl)
  after_l2-IsSent world s key (err e) some_key h =
      fall_back-IsSent world _ key some_key (moved _ _ h refl refl)

  -- A `Get` sends one lookup for each hit and each miss of L3 that it counts.
  pub get-IsSent :
      (world : World) (s : TieredAuthStore P.Db) (key : Bytes)
      → IsSent 0 s
      → IsSent 0 (get P env world s key).1
  unfolding get
  get-IsSent world s key h = elim (Bool-cases (is_empty key)) [
    | inl e ↦ rw (e, get) h
    | inr e ↦ elim (Option-cases (read_l1 P env world.now s key)) [
      | inl k ↦
          rw (e, k, get)
            (after_l2-IsSent world (record s { l1_misses = increment s.l1_misses }) key _ e
              (moved _ _ h refl refl))
      | inr (x, k) ↦ rw (e, k, get) (moved _ _ h refl refl)
    ]
  ]

  pub invalidate-IsSent :
      (s : TieredAuthStore P.Db) (key : Bytes) → IsSent 0 s → IsSent 0 (invalidate P env s key).1
  unfolding invalidate
  invalidate-IsSent s key h = elim (Option-cases s.pebble_db) [
    | inl k ↦ rw (k, invalidate) (moved _ _ h refl refl)
    | inr (db, k) ↦ elim (Bool-cases (is_empty key)) [
      | inl m ↦ rw (k, m, invalidate) (moved _ _ h refl refl)
      | inr m ↦ rw (k, m, invalidate) (moved _ _ h refl refl)
    ]
  ]
