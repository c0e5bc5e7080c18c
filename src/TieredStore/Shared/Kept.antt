-- ===== src/TieredStore/Shared/Kept.antt =====
-- What L1 holds, and serves, is what L2 or L3 answered for that key.
use mapex_mqttbroker.Common.{
  ℕ, ◌≡◌, sym, ap, ◌∙◌, subst, inl, inr, Option, none, some, List, arith, Bool-cases, Option-cases,
  is_empty, All, Bytes,
}
use mapex_mqttbroker.Common.Int.{ℤ}
use mathlib.Core.Option.{none-ne-some, some-injective}
use mapex_mqttbroker.Entry.{AuthEntry}
use mapex_mqttbroker.Json.{Json}
use mapex_mqttbroker.Platform.{Platform, ReadsTime}
use mapex_mqttbroker.Publisher.Machine.{Pick, here, there}
use mapex_mqttbroker.TieredStore.{
  TieredAuthStore, fresh_entry, read_value, read_l1, write_l1, invalidate, close,
}
use mapex_mqttbroker.TieredStore.Interface.{Pebble, PebbleFrame, Read, missing, read_error, value}
use mapex_mqttbroker.TieredStore.PebbleJson.{
  PebbleEntry, IsText, marshal_pebble_entry, unmarshal_pebble_entry, unmarshal-marshal_pebble_entry,
}
use mapex_mqttbroker.TieredStore.Shared.{
  Fetch, Shared, Step, Steps, ticks, counts, fetches, writes, invalidates, closes, done, more,
}

-- What a value of Pebble decodes to.
unfoldable pub stored : Platform → Read → Option PebbleEntry
stored env missing = none
stored env read_error = none
stored env (value doc) = unmarshal_pebble_entry env doc

read_value-stored :
    (P : Pebble) (env : Platform) (now : ℕ) (ttl : ℤ) (r : Read) (e : AuthEntry)
    → read_value P env now ttl r ≡ some e
    → (pe : PebbleEntry) × (stored env r ≡ some pe) × (pe.entry ≡ e)
unfolding read_value stored fresh_entry
read_value-stored P env now ttl missing e h = absurd (none-ne-some e h)
read_value-stored P env now ttl read_error e h = absurd (none-ne-some e h)
read_value-stored P env now ttl (value doc) e h =
    elim (Option-cases (unmarshal_pebble_entry env doc)) [
      | inl k ↦ absurd (ground arith)
      | inr (pe, k) ↦ (pe, k, ground arith)
    ]

module _ (P : Pebble) (frame : PebbleFrame P) (env : Platform)
    (Answers : Bytes → AuthEntry → Type 0) where
  -- Every entry in the database is one that was answered for its key.
  abbrev pub Keeps : P.Db → Type 0
  Keeps db =
      (key : Bytes) (pe : PebbleEntry) → stored env (P.get db key) ≡ some pe → Answers key pe.entry

  abbrev pub KeptIn : Option P.Db → Type 0
  KeptIn none = Unit {0}
  KeptIn (some db) = Keeps db

  abbrev pub Kept : TieredAuthStore P.Db → Type 0
  Kept s = KeptIn s.pebble_db

  Keeps-set :
      (db : P.Db) (key : Bytes) (doc : Json)
      → ((pe : PebbleEntry)
          → unmarshal_pebble_entry env (some doc) ≡ some pe
          → Answers key pe.entry)
      → Keeps db
      → Keeps (P.set db key doc).1
  unfolding stored
  Keeps-set db key doc fits h other pe e = elim (frame.get-set_cases db key doc other) [
    | inl k ↦ h other pe (ap (stored env) (sym k) ∙ e)
    | inr (k, v) ↦ subst (λ x. Answers x pe.entry) (sym k) (fits pe (ap (stored env) (sym v) ∙ e))
  ]

  Keeps-delete : (db : P.Db) (key : Bytes) → Keeps db → Keeps (P.delete db key).1
  unfolding stored
  Keeps-delete db key h other pe e = elim (frame.get-delete_cases db key other) [
    | inl k ↦ h other pe (ap (stored env) (sym k) ∙ e)
    | inr (k, v) ↦ absurd (none-ne-some pe (ap (stored env) (sym v) ∙ e))
  ]

  write_l1-Kept :
      (now : ℕ) (s : TieredAuthStore P.Db) (key : Bytes) (e : AuthEntry)
      → ReadsTime env
      → IsText e
      → Answers key e
      → Kept s
      → Kept (write_l1 P env now s key e)
  unfolding write_l1
  write_l1-Kept now s key e reads text answered h = elim (Option-cases s.pebble_db) [
    | inl k ↦ rw (k, write_l1) h
    | inr (db, k) ↦
        let old : Keeps db = subst KeptIn k h in
        elim (Option-cases (marshal_pebble_entry env (record { entry = e; cached_at = now }))) [
          | inl m ↦ rw (k, m, write_l1) h
          | inr (doc, m) ↦ rw (k, m, write_l1) (Keeps-set db key doc (fits doc m) old)
        ]
  ]
    where
      fits :
          (doc : Json)
          → marshal_pebble_entry env (record { entry = e; cached_at = now }) ≡ some doc
          → (pe : PebbleEntry) → unmarshal_pebble_entry env (some doc) ≡ some pe
          → Answers key pe.entry
      fits doc m pe u =
          let read = unmarshal-marshal_pebble_entry env e now doc reads text m in
          subst (λ (x : PebbleEntry). Answers key x.entry) (some-injective _ _ (sym read ∙ u))
            answered

  invalidate-Kept :
      (s : TieredAuthStore P.Db) (key : Bytes) → Kept s → Kept (invalidate P env s key).1
  unfolding invalidate
  invalidate-Kept s key h = elim (Option-cases s.pebble_db) [
    | inl k ↦ rw (k, invalidate) h
    | inr (db, k) ↦
        let old : Keeps db = subst KeptIn k h in
        elim (Bool-cases (is_empty key)) [
          | inl m ↦ rw (k, m, invalidate) h
          | inr m ↦ rw (k, m, invalidate) (Keeps-delete db key old)
        ]
  ]

  close-Kept : (s : TieredAuthStore P.Db) → Kept s → Kept (close P env s).1
  unfolding close
  close-Kept s h = elim (Option-cases s.pebble_db) [
    | inl k ↦ rw (k, close) h
    | inr (db, k) ↦ rw (k, close) tt
  ]

  pub read_l1-Kept :
      (now : ℕ) (s : TieredAuthStore P.Db) (key : Bytes) (e : AuthEntry)
      → Kept s
      → read_l1 P env now s key ≡ some e
      → Answers key e
  unfolding read_l1
  read_l1-Kept now s key e h r = elim (Option-cases s.pebble_db) [
    | inl k ↦ absurd (ground arith)
    | inr (db, k) ↦
        let old : Keeps db = subst KeptIn k h in
        let (pe, found, same_entry) =
          read_value-stored P env now s.l1_ttl (P.get db key) e (rw k at r) in
        subst (Answers key) same_entry (old key pe found)
  ]

  abbrev pub IsAnswered : Fetch → Type 0
  IsAnswered f = IsText f.entry × Answers f.key f.entry

  pub record IsSound (c : Shared P env) : Type 0 where
    pub kept : Kept c.store
    pub answered : All IsAnswered c.in_flight

  Pick-All :
      {f : Fetch} {xs ys : List Fetch}
      → Pick f xs ys
      → All IsAnswered xs
      → IsAnswered f × All IsAnswered ys
  Pick-All here (h, hs) = (h, hs)
  Pick-All (there p) (h, hs) = let (hf, hr) = Pick-All p hs in (hf, (h, hr))

  Step-IsSound :
      {c n : Shared P env} → ReadsTime env → IsSound c → Step P env Answers c n → IsSound n
  Step-IsSound reads v (ticks now) = record { kept = v.kept; answered = v.answered }
  Step-IsSound reads v (counts s e _) = record {
    kept = subst KeptIn (sym e) v.kept;
    answered = v.answered;
  }
  Step-IsSound reads v (fetches key e text a) = record {
    kept = v.kept;
    answered = ((text, a), v.answered);
  }
  Step-IsSound {c} reads v (writes f rest p) =
      let ((text, a), others) = Pick-All p v.answered in
      record {
        kept = write_l1-Kept c.now c.store f.key f.entry reads text a v.kept;
        answered = others;
      }
  Step-IsSound {c} reads v (invalidates key) = record {
    kept = invalidate-Kept c.store key v.kept;
    answered = v.answered;
  }
  Step-IsSound {c} reads v closes = record {
    kept = close-Kept c.store v.kept;
    answered = v.answered;
  }

  pub Steps-IsSound :
      {c n : Shared P env} → ReadsTime env → IsSound c → Steps P env Answers c n → IsSound n
  Steps-IsSound reads v done = v
  Steps-IsSound reads v (more r s) = Step-IsSound reads (Steps-IsSound reads v r) s

  -- However the `Get`s, the invalidations and the clock interleave: if the database and the `Get`s
  -- in flight hold nothing at the start but what L2 or L3 may answer, then whatever L1 serves for a
  -- key, at whatever time, is what L2 or L3 may answer for that very key. (Pebble keeps the keys
  -- apart, and times that are rendered are read back.)
  pub serves_answered :
      {c n : Shared P env} (later : ℕ) (key : Bytes) (e : AuthEntry)
      → ReadsTime env
      → IsSound c
      → Steps P env Answers c n
      → read_l1 P env later n.store key ≡ some e
      → Answers key e
  serves_answered {c} {n} later key e reads v r served =
      read_l1-Kept later n.store key e (Steps-IsSound reads v r).kept served
