-- ===== src/TieredStore/Shared/Calls.antt =====
-- A whole call of a method, with nothing between, is a run of the shared store.
use mapex_mqttbroker.Common.{
  ℕ, ◌≡◌, refl, sym, ap, ◌∙◌, subst, inl, inr, Option, none, some, Bool-cases, Option-cases,
  is_empty, Bytes,
}
use mapex_mqttbroker.Common.Int.{increment}
use mapex_mqttbroker.AuthStore.{not_found, unavailable, failed, Result, ok, err}
use mapex_mqttbroker.Entry.{AuthEntry}
use mapex_mqttbroker.Platform.{Platform}
use mapex_mqttbroker.Publisher.Machine.{here}
use mapex_mqttbroker.TieredStore.{
  TieredAuthStore, read_l1, write_l1, read_l2, read_l3, end_l3, fall_back, after_l2, get,
}
use mapex_mqttbroker.TieredStore.Interface.{Pebble, World}
use mapex_mqttbroker.TieredStore.Layers.{third, read_l3-third, read_l2_missed}
use mapex_mqttbroker.TieredStore.PebbleJson.{IsText}
use mapex_mqttbroker.TieredStore.Shared.{Shared, Steps, counts, fetches, writes, done, more}

module _ (P : Pebble) (env : Platform) (Answers : Bytes → AuthEntry → Type 0) where
  -- What a call did to the store `s`: it counted, and it may have written one answer to L1.
  data Effect (now : ℕ) (s : TieredAuthStore P.Db) (key : Bytes) (out : TieredAuthStore P.Db)
      : Type 0 where
    counted : out.pebble_db ≡ s.pebble_db → out.l1_ttl ≡ s.l1_ttl → Effect now s key out
    cached :
        (t : TieredAuthStore P.Db) (e : AuthEntry)
        → t.pebble_db ≡ s.pebble_db
        → t.l1_ttl ≡ s.l1_ttl
        → IsText e
        → Answers key e
        → out ≡ write_l1 P env now t key e
        → Effect now s key out

  Effect-Steps :
      (c : Shared P env) (key : Bytes) (out : TieredAuthStore P.Db)
      → Effect c.now c.store key out
      → Steps P env Answers c (record c { store = out })
  Effect-Steps c key out (counted d t) = more done (counts out d t)
  Effect-Steps c key out (cached t e d l text a q) =
      let fetched = more (more done (counts t d l)) (fetches key e text a) in
      subst (λ x. Steps P env Answers c (record c { store = x })) (sym q)
        (more fetched (writes (record { key = key; entry = e }) c.in_flight here))

  -- What the layers answer to one call of `Get` is among the answers.
  abbrev pub Permitted : World → TieredAuthStore P.Db → Bytes → Type 0
  Permitted world s key =
      ((e : AuthEntry) → read_l2 P env world s key ≡ ok (some e) → IsText e × Answers key e)
      × ((e : AuthEntry) → third P env world s.l3_client key ≡ ok e → IsText e × Answers key e)

  end_l3-Effect :
      (now : ℕ) (s t : TieredAuthStore P.Db) (key : Bytes) (r : Result AuthEntry)
      → t.pebble_db ≡ s.pebble_db
      → t.l1_ttl ≡ s.l1_ttl
      → ((e : AuthEntry) → r ≡ ok e → IsText e × Answers key e)
      → Effect now s key (end_l3 P env now t key r).1
  unfolding end_l3
  end_l3-Effect now s t key (err not_found) d l h = counted d l
  end_l3-Effect now s t key (err unavailable) d l h = counted d l
  end_l3-Effect now s t key (err failed) d l h = counted d l
  end_l3-Effect now s t key (ok e) d l h = let (text, a) = h e refl in cached _ e d l text a refl

  read_l3_keeps :
      (world : World) (s : TieredAuthStore P.Db) (key : Bytes)
      → ((read_l3 P env world s key).1.pebble_db ≡ s.pebble_db)
        × ((read_l3 P env world s key).1.l1_ttl ≡ s.l1_ttl)
  unfolding read_l3
  read_l3_keeps world s key = elim (Option-cases s.l3_client) [
    | inl k ↦ rw (k, read_l3) (refl, refl)
    | inr (client, k) ↦ rw (k, read_l3) (refl, refl)
  ]

  fall_back-Effect :
      (world : World) (s t : TieredAuthStore P.Db) (key : Bytes)
      → t.pebble_db ≡ s.pebble_db
      → t.l1_ttl ≡ s.l1_ttl
      → t.l3_client ≡ s.l3_client
      → Permitted world s key
      → Effect world.now s key (fall_back P env world t key).1
  unfolding fall_back
  fall_back-Effect world s t key d l client (_, h) =
      let (d', l') = read_l3_keeps world t key in
      end_l3-Effect world.now s _ key _ (d' ∙ d) (l' ∙ l) (λ e q. h e (
        ap (λ x. third P env world x key) (sym client) ∙ sym (read_l3-third P env world t key) ∙ q))

  after_l2-Effect :
      (world : World) (s t : TieredAuthStore P.Db) (key : Bytes) (r : Result (Option AuthEntry))
      → t.pebble_db ≡ s.pebble_db
      → t.l1_ttl ≡ s.l1_ttl
      → t.l3_client ≡ s.l3_client
      → read_l2 P env world s key ≡ r
      → Permitted world s key
      → Effect world.now s key (after_l2 P env world t key r).1
  unfolding after_l2
  after_l2-Effect world s t key (ok (some e)) d l client q h =
      let (text, a) = h.0 e q in cached _ e d l text a refl
  after_l2-Effect world s t key (ok none) d l client q h =
      fall_back-Effect world s _ key d l client h
  after_l2-Effect world s t key (err e) d l client q h = fall_back-Effect world s _ key d l client h

  get-Effect :
      (world : World) (s : TieredAuthStore P.Db) (key : Bytes)
      → Permitted world s key
      → Effect world.now s key (get P env world s key).1
  unfolding get
  get-Effect world s key h = elim (Bool-cases (is_empty key)) [
    | inl e ↦ rw (e, get) (counted refl refl)
    | inr e ↦ elim (Option-cases (read_l1 P env world.now s key)) [
      | inl k ↦
          rw (e, k, get)
            (after_l2-Effect world s _ key _ refl refl refl
              (sym (read_l2_missed P env world s key (increment s.l1_misses))) h)
      | inr (x, k) ↦ rw (e, k, get) (counted refl refl)
    ]
  ]

  -- A whole call of `Get` is a run of the shared store: it ends with the store that `get` returns,
  -- and nothing else changes. (What L2 and L3 answer to this call is among the answers, and UTF-8.)
  pub get_runs :
      (world : World) (c : Shared P env) (key : Bytes)
      → c.now ≡ world.now
      → Permitted world c.store key
      → Steps P env Answers c (record c { store = (get P env world c.store key).1 })
  get_runs world c key e h = Effect-Steps c key _ (
      subst (λ x. Effect x c.store key (get P env world c.store key).1) (sym e)
        (get-Effect world c.store key h))
