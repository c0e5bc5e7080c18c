-- ===== src/Revocation.antt =====
-- `Authenticate` of src/plugin.go over the store of src/auth_store.go that it shares with the
-- handler of src/fanout_consumer.go: which entries a device can be admitted by.
pub mod Aliases
pub mod FailClosed
mod Tests
use mapex_mqttbroker.Common.{
  ℕ, ◌≡◌, refl, sym, ap, ◌∙◌, subst, ◌≢◌, ◌⊎◌, inl, inr, Option, none, some, [], true, false, arith,
  Bool-cases, is_empty, is_empty_iff, Bytes,
}
use mapex_mqttbroker.Auth.{auth_allow, authenticate}
use mapex_mqttbroker.Auth.Checks.{Admits}
use mapex_mqttbroker.Auth.Decision.{authenticate_allow_iff}
use mapex_mqttbroker.AuthStore.{Result, not_found, unavailable, failed, ok, err}
use mapex_mqttbroker.Entry.{AuthEntry}
use mapex_mqttbroker.Fanout.{FanoutConsumer, decode_payload, handle}
use mapex_mqttbroker.Json.{Json}
use mapex_mqttbroker.Platform.{Platform, ReadsTime}
use mapex_mqttbroker.Runtime.{PluginRuntime}
use mapex_mqttbroker.TieredStore.{TieredAuthStore, read_l1, read_l2, get, invalidate, tiered}
use mapex_mqttbroker.TieredStore.Interface.{Pebble, PebbleLaws, PebbleFrame, World}
use mapex_mqttbroker.TieredStore.Layers.{third, layered, get-layered}
use mapex_mqttbroker.TieredStore.Shared.{Shared, Steps}
use mapex_mqttbroker.TieredStore.Shared.Calls.{Permitted}
use mapex_mqttbroker.TieredStore.Shared.Coherence.{
  Renewed, Elsewhere, Elsewhere-IsAnswered, after_invalidate, invalidate-Kept_key,
}
use mapex_mqttbroker.TieredStore.Shared.Kept.{IsSound, Steps-IsSound, read_l1-Kept}
use mathlib.Core.Option.{some-injective}

module _ (P : Pebble) (env : Platform) where
  pub handle-invalidate :
      (fc : FanoutConsumer) (s : TieredAuthStore P.Db) (body : Option Json) (uuid : Bytes)
      → decode_payload env body ≡ some uuid
      → uuid ≢ []
      → (handle env (tiered P env) fc s body).1 ≡ (invalidate P env s uuid).1
  unfolding handle
  handle-invalidate fc s body uuid named full =
      let e : is_empty uuid ≡ false = ground (arith, is_empty_iff uuid) in rw (named, e, handle)

  settle_ok :
      (l3 : Result AuthEntry) (e : AuthEntry) → layered P env none (ok none) l3 ≡ ok e → l3 ≡ ok e
  settle_ok (ok x) e h = h
  settle_ok (err not_found) e h = absurd (cc)
  settle_ok (err unavailable) e h = absurd (cc)
  settle_ok (err failed) e h = absurd (cc)

  -- An entry that the layers answer with is one that a layer answered with.
  pub layered_ok :
      (l1 : Option AuthEntry) (l2 : Result (Option AuthEntry)) (l3 : Result AuthEntry)
      (e : AuthEntry)
      → layered P env l1 l2 l3 ≡ ok e
      → (l1 ≡ some e) ⊎ (l2 ≡ ok (some e)) ⊎ (l3 ≡ ok e)
  layered_ok (some x) l2 l3 e h = inl (cc)
  layered_ok none (ok (some x)) l3 e h = inr (inl (cc))
  layered_ok none (ok none) l3 e h = inr (inr (settle_ok l3 e h))
  layered_ok none (err _) l3 e h = inr (inr (settle_ok l3 e h))

module _ (P : Pebble) (frame : PebbleFrame P) (env : Platform)
    (Answers : Bytes → AuthEntry → Type 0) where
  get_answered :
      (world : World) (s : TieredAuthStore P.Db) (key : Bytes) (e : AuthEntry)
      → ((x : AuthEntry) → read_l1 P env world.now s key ≡ some x → Answers key x)
      → Permitted P env Answers world s key
      → (get P env world s key).0 ≡ ok e
      → Answers key e
  unfolding get
  get_answered world s key e cached (second, last) h = elim (Bool-cases (is_empty key)) [
    | inl empty ↦ absurd (ground arith)
    | inr full ↦
        let served =
          sym (get-layered P env world s key (λ k. cc (full, (is_empty_iff key).1 k))) ∙ h in
        elim (layered_ok P env (read_l1 P env world.now s key) (read_l2 P env world s key)
          (third P env world s.l3_client key) e served) [
            | inl k ↦ cached e k
            | inr (inl k) ↦ (second e k).1
            | inr (inr k) ↦ (last e k).1
          ]
  ]

  -- Whatever the callers of `Get` and `Invalidate` did to the store before: a device that
  -- `Authenticate` admits is admitted by an entry that L2 or L3 may answer for its username.
  pub admitted_answered :
      {c n : Shared P env} (world : World) (r : PluginRuntime (TieredAuthStore P.Db))
      (username password client_id serial : Bytes)
      → ReadsTime env
      → IsSound P frame env Answers c
      → Steps P env Answers c n
      → r.has_auth ≡ true
      → r.store ≡ some n.store
      → Permitted P env Answers world n.store username
      → (authenticate (tiered P env) env world r username password client_id serial).0 ≡ auth_allow
      → (e : AuthEntry) × Answers username e × Admits env e password serial
  admitted_answered {c} {n} world r username password client_id serial reads sound run has_auth
        shared permitted h =
      let (_, (s, e, stored, found, admits)) =
        (authenticate_allow_iff (tiered P env) env world r username password client_id serial
            has_auth).0
          h in
      let here : s ≡ n.store = some-injective s n.store (sym stored ∙ shared) in
      let kept = (Steps-IsSound P frame env Answers reads sound run).kept in
      (
        e,
        get_answered world n.store username e
            (λ x. read_l1-Kept P frame env Answers world.now n.store username x kept) permitted
            (ap (λ x. (get P env world x username).0) (sym here) ∙ found),
        admits,
      )

module _ (P : Pebble) (laws : PebbleLaws P) (frame : PebbleFrame P) (env : Platform) where
  -- The store once the fanout consumer has handled a message.
  abbrev pub after_message : Shared P env → FanoutConsumer → Option Json → Shared P env
  after_message c fc body = record c { store = (handle env (tiered P env) fc c.store body).1 }

  -- Revocation holds: once the fanout consumer has handled a message about an asset, and Pebble has
  -- carried the deletion out, with no `Get` of the asset between its read of L2 or L3 and its write
  -- of L1, then as long as L2 and L3 answer for the asset with no entry that these credentials
  -- fit, `Authenticate` does not admit the device by them, however the store is used between.
  pub revocation_holds :
      (c : Shared P env) {n : Shared P env} (fc : FanoutConsumer) (body : Option Json)
      (uuid : Bytes) (db : P.Db) (world : World) (r : PluginRuntime (TieredAuthStore P.Db))
      (password client_id serial : Bytes)
      → ReadsTime env
      → decode_payload env body ≡ some uuid
      → uuid ≢ []
      → c.store.pebble_db ≡ some db
      → (P.delete db uuid).0 ≡ true
      → Elsewhere P laws frame env uuid c.in_flight
      → let Fits = λ (e : AuthEntry). Admits env e password serial in
        let Unfit = Renewed P laws frame env uuid (λ e. ¬ (Fits e)) in
        Steps P env Unfit (after_message c fc body) n
        → r.has_auth ≡ true
        → r.store ≡ some n.store
        → Permitted P env Unfit world n.store uuid
        → (authenticate (tiered P env) env world r uuid password client_id serial).0 ≢ auth_allow
  revocation_holds c {n} fc body uuid db world r password client_id serial reads named full has_db
        deleted idle run has_auth shared permitted h =
      let Unfit : Bytes → AuthEntry → Type 0 =
        Renewed P laws frame env uuid (λ e. ¬ (Admits env e password serial)) in
      let start : IsSound P frame env Unfit (after_message c fc body) = record {
        kept = rw (handle-invalidate P env fc c.store body uuid named full) (
            invalidate-Kept_key P laws frame env c.store uuid db
              (λ e. ¬ (Admits env e password serial)) full has_db deleted);
        answered =
            Elsewhere-IsAnswered P laws frame env uuid (λ e. ¬ (Admits env e password serial))
              c.in_flight idle;
      } in
      let (e, answered, admits) =
        admitted_answered P frame env Unfit world r uuid password client_id serial reads start run
          has_auth shared permitted h in
      elim answered [ inl other ↦ other refl | inr unfit ↦ unfit admits ]
