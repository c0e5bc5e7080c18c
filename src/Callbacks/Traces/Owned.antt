-- ===== src/Callbacks/Traces/Owned.antt =====
-- Every job that waits or has left is for a device and an organization that the store has paired.
use mapex_mqttbroker.Common.{ℕ, ◌≡◌, refl, sym, ◌∙◌, subst, ◌≢◌, inl, inr, some, [], ◌∷◌, All}
use mapex_mqttbroker.AuthStore.{AuthStore, ok}
use mapex_mqttbroker.Callbacks.{
  mosq_err_success, BasicAuthEvent, go_string, identity, on_disconnect, on_message, on_basic_auth,
}
use mapex_mqttbroker.Callbacks.Sequences.{on_basic_auth_sessions}
use mapex_mqttbroker.Callbacks.Traces.{
  Trace, Event, Events, admits, refuses, disconnects, messages, takes, moves, stores, done, more,
}
use mapex_mqttbroker.Callbacks.Traces.Sends.{
  SendsFor, on_disconnect-Sends, on_message-Sends, on_basic_auth-Sends,
}
use mapex_mqttbroker.Callbacks.Kept.{on_disconnect_sessions, on_message_sessions}
use mapex_mqttbroker.Config.{Config}
use mapex_mqttbroker.Entry.{AuthEntry}
use mapex_mqttbroker.Platform.{Platform}
use mapex_mqttbroker.Runtime.{PluginRuntime}
use mapex_mqttbroker.Session.{SessionInfo, lookup_session}
use mapex_mqttbroker.Callbacks.Traces.Granted.{
  IsOwned, AreGranted, AllOwned-weaken, Owned, no_session, AreGranted-remember, queued_after,
}

module _ {World : Type 0} (backend : AuthStore World) (env : Platform) (c : Config) where
  admitted_sessions :
      (t : Trace (backend.State)) (world : World) (ed : BasicAuthEvent) (now : ℕ)
      (s : backend.State) (e : AuthEntry)
      → AreGranted t.granted t.runtime.sessions
      → t.runtime.store ≡ some s
      → (backend.get world s (identity ed)).0 ≡ ok e
      → (on_basic_auth backend env world t.runtime ed now).0 ≡ mosq_err_success
      → AreGranted
          (record { org_id = e.org_id; asset_uuid = identity ed } ∷ t.granted)
          (on_basic_auth backend env world t.runtime ed now).1.sessions
  admitted_sessions t world ed now s e old stored found success =
      elim (on_basic_auth_sessions backend env world t.runtime ed now) [
        | inl (s', e', stored', found', _, sessions) ↦
            let same_entry : e' ≡ e = cc in
            rw sessions (
              rw same_entry (
                AreGranted-remember t.granted t.runtime.sessions (go_string ed.client.id) e.org_id
                  (identity ed) old))
        | inr (refused, _) ↦ absurd (refused success)
      ]

  pub refused_sessions :
      (r : PluginRuntime (backend.State)) (world : World) (ed : BasicAuthEvent) (now : ℕ)
      → (on_basic_auth backend env world r ed now).0 ≢ mosq_err_success
      → (on_basic_auth backend env world r ed now).1.sessions ≡ r.sessions
  refused_sessions r world ed now refused =
      elim (on_basic_auth_sessions backend env world r ed now) [
        | inl (_, _, _, _, success, _) ↦ absurd (refused success)
        | inr (_, sessions) ↦ sessions
      ]

  refused_keeps :
      (r : PluginRuntime (backend.State)) (world : World) (ed : BasicAuthEvent) (now : ℕ)
      → (on_basic_auth backend env world r ed now).0 ≢ mosq_err_success
      → let out = (on_basic_auth backend env world r ed now).1 in
        (out.config ≡ r.config) × (out.async.queue ≡ r.async.queue)
  refused_keeps r world ed now refused = elim (on_basic_auth-Sends backend env world r ed now) [
    | inl (success, _) ↦ absurd (refused success)
    | inr kept ↦ kept
  ]

  Event-Owned :
      {t n : Trace (backend.State)} → Owned env c t → Event backend env t n → Owned env c n
  Event-Owned {t} v (admits world ed now s e stored found success) =
      let out = (on_basic_auth backend env world t.runtime ed now).1 in
      let client = go_string ed.client.id in
      let who : SessionInfo = record { org_id = e.org_id; asset_uuid = identity ed } in
      let sessions = admitted_sessions t world ed now s e v.sessions stored found success in
      let sends : SendsFor env t.runtime out (lookup_session out.sessions client) =
        elim (on_basic_auth-Sends backend env world t.runtime ed now) [
          | inl (_, sends) ↦ sends
          | inr kept ↦ inr kept
        ] in
      let (config, queued) =
        queued_after env c (who ∷ t.granted) t.runtime out (lookup_session out.sessions client)
          v.config (sessions client)
          (AllOwned-weaken env c t.granted who t.runtime.async.queue v.queued) sends in
      record {
        config = config;
        sessions = sessions;
        queued = queued;
        left = AllOwned-weaken env c t.granted who t.taken v.left;
      }
  Event-Owned {t} v (refuses world ed now refused) =
      let (config, queue) = refused_keeps t.runtime world ed now refused in
      record {
        config = config ∙ v.config;
        sessions =
            subst (AreGranted t.granted) (sym (refused_sessions t.runtime world ed now refused))
              v.sessions;
        queued = subst (All (IsOwned env c t.granted)) (sym queue) v.queued;
        left = v.left;
      }
  Event-Owned {t} v (disconnects ed now) =
      let client = go_string ed.client.id in
      let (config, queued) =
        queued_after env c t.granted t.runtime (on_disconnect env t.runtime ed now)
          (lookup_session t.runtime.sessions client) v.config (v.sessions client) v.queued
          (on_disconnect-Sends env t.runtime ed now) in
      record {
        config = config;
        sessions =
            λ k who e. v.sessions k who (on_disconnect_sessions env t.runtime ed now k who e);
        queued = queued;
        left = v.left;
      }
  Event-Owned {t} v (messages ed now) =
      let client = go_string ed.client.id in
      let (config, queued) =
        queued_after env c t.granted t.runtime (on_message env t.runtime ed now)
          (lookup_session t.runtime.sessions client) v.config (v.sessions client) v.queued
          (on_message-Sends env t.runtime ed now) in
      record {
        config = config;
        sessions =
            subst (AreGranted t.granted) (sym (on_message_sessions env t.runtime ed now))
              v.sessions;
        queued = queued;
        left = v.left;
      }
  Event-Owned {t} v (takes job rest e) =
      let (first, others) = subst (All (IsOwned env c t.granted)) e v.queued in
      record { config = v.config; sessions = v.sessions; queued = others; left = (first, v.left) }
  Event-Owned {t} v (moves p e) = record {
    config = v.config;
    sessions = v.sessions;
    queued = subst (All (IsOwned env c t.granted)) (sym e) v.queued;
    left = v.left;
  }
  Event-Owned v (stores s f) = record {
    config = v.config;
    sessions = v.sessions;
    queued = v.queued;
    left = v.left;
  }

  -- Every call of the callback for a connection is one of the two events for it.
  pub on_basic_auth-Event :
      (t : Trace (backend.State)) (world : World) (ed : BasicAuthEvent) (now : ℕ)
      → (n : Trace (backend.State)) × Event backend env t n
        × (n.runtime ≡ (on_basic_auth backend env world t.runtime ed now).1)
  on_basic_auth-Event t world ed now =
      elim (on_basic_auth_sessions backend env world t.runtime ed now) [
        | inl (s, e, stored, found, success, _) ↦
            (_, admits world ed now s e stored found success, refl)
        | inr (refused, _) ↦ (_, refuses world ed now refused, refl)
      ]

  Events-Owned :
      {t n : Trace (backend.State)} → Owned env c t → Events backend env t n → Owned env c n
  Events-Owned v done = v
  Events-Owned v (more r s) = Event-Owned (Events-Owned v r) s

  -- A runtime as `BuildRuntime` returns it: no session, and no job.
  pub record IsFresh (r : PluginRuntime (backend.State)) : Type 0 where
    pub config : r.config ≡ c
    pub sessions : r.sessions ≡ []
    pub queue : r.async.queue ≡ []

  fresh-Owned :
      (r : PluginRuntime (backend.State))
      → IsFresh r
      → Owned env c {State = backend.State} (record { runtime = r; granted = []; taken = [] })
  fresh-Owned r f = record {
    config = f.config;
    sessions = λ client who e. absurd (no_session client who (rw f.sessions at e));
    queued = rw f.queue tt;
    left = tt;
  }

  -- Whatever the callbacks are called with and in whatever order, and whatever the workers, `Drain`
  -- and the fanout consumer do between: every job that waits in the queue, and every job that a
  -- worker took, is of one device and one organization that were admitted together before, by an
  -- entry of the store. It is either the presence advisory that names them, or a message that names
  -- them, under their ingress subject. (The runtime starts with no session and no job.)
  pub jobs_owned :
      (r : PluginRuntime (backend.State)) {t : Trace (backend.State)}
      → IsFresh r
      → Events backend env (record { runtime = r; granted = []; taken = [] }) t
      → All (IsOwned env c t.granted) t.runtime.async.queue × All (IsOwned env c t.granted) t.taken
  jobs_owned r f run = let v = Events-Owned (fresh-Owned r f) run in (v.queued, v.left)
