-- ===== src/Callbacks/Traces/Sessions.antt =====
-- The session map after any sequence of events, against the events alone.
use mapex_mqttbroker.Common.{
  ◌≡◌, ◌∙◌, inl, inr, not, ◌&&◌, Option, none, some, List, [], ◌∷◌, arith, if◌then◌else◌, is_empty,
  Bytes, same, ℕ,
}
use mapex_mqttbroker.AuthStore.{AuthStore, ok}
use mapex_mqttbroker.Callbacks.{
  mosq_err_success, BasicAuthEvent, go_string, identity, on_basic_auth,
}
use mapex_mqttbroker.Callbacks.Sequences.{on_basic_auth_sessions}
use mapex_mqttbroker.Callbacks.Traces.{
  Trace, Event, Events, admits, refuses, disconnects, messages, takes, moves, stores, done, more,
}
use mapex_mqttbroker.Callbacks.Traces.Owned.{refused_sessions}
use mapex_mqttbroker.Callbacks.Kept.{lookup_session-on_disconnect, on_message_sessions}
use mapex_mqttbroker.Entry.{AuthEntry}
use mapex_mqttbroker.Platform.{Platform}
use mapex_mqttbroker.Runtime.{PluginRuntime}
use mapex_mqttbroker.Session.{SessionInfo, lookup_session, lookup_session-remember_session}

-- What an event says of a client id.
pub data Note : Type 0 where
  arrived : Bytes → SessionInfo → Note
  gone : Bytes → Note

-- Who stands behind a client id by the notes, the last one first.
unfoldable pub standing : List Note → Bytes → Option SessionInfo
standing [] client_id = none
standing (arrived k who ∷ notes) client_id =
    if same k client_id && not (is_empty k) then some who else standing notes client_id
standing (gone k ∷ notes) client_id = if same k client_id then none else standing notes client_id

lookup_session_nil : (client_id : Bytes) → lookup_session [] client_id ≡ none
unfolding lookup_session
lookup_session_nil client_id = ground arith

module _ {World : Type 0} (backend : AuthStore World) (env : Platform) where
  unfoldable pub note :
      {t n : Trace (backend.State)} → Event backend env t n → List Note → List Note
  note (admits world ed now s e _ _ _) notes =
      arrived (go_string ed.client.id) (record { org_id = e.org_id; asset_uuid = identity ed })
      ∷ notes
  note (disconnects ed now) notes = gone (go_string ed.client.id) ∷ notes
  note _ notes = notes

  unfoldable pub notes : {t n : Trace (backend.State)} → Events backend env t n → List Note
  unfolding note
  notes done = []
  notes (more run event) = note event (notes run)

  admitted_lookup :
      (r : PluginRuntime (backend.State)) (world : World) (ed : BasicAuthEvent) (now : ℕ)
      (s : backend.State) (e : AuthEntry) (client_id : Bytes)
      → r.store ≡ some s
      → (backend.get world s (identity ed)).0 ≡ ok e
      → (on_basic_auth backend env world r ed now).0 ≡ mosq_err_success
      → lookup_session (on_basic_auth backend env world r ed now).1.sessions client_id ≡ (
          if same (go_string ed.client.id) client_id && not (is_empty (go_string ed.client.id))
          then some (record { org_id = e.org_id; asset_uuid = identity ed })
          else lookup_session r.sessions client_id)
  admitted_lookup r world ed now s e client_id stored found success =
      elim (on_basic_auth_sessions backend env world r ed now) [
        | inl (s', e', stored', found', _, sessions) ↦
            let same_entry : e' ≡ e = cc in
            rw (sessions, same_entry)
              (lookup_session-remember_session r.sessions (go_string ed.client.id) client_id
                e.org_id (identity ed))
        | inr (refused, _) ↦ absurd (refused success)
      ]

  note_stands :
      {t n : Trace (backend.State)} (event : Event backend env t n) (before : List Note)
      (client_id : Bytes)
      → lookup_session t.runtime.sessions client_id ≡ standing before client_id
      → lookup_session n.runtime.sessions client_id ≡ standing (note event before) client_id
  unfolding note standing
  note_stands {t} (admits world ed now s e stored found success) before client_id h =
      admitted_lookup t.runtime world ed now s e client_id stored found success ∙ rw h
  note_stands {t} (refuses world ed now refused) before client_id h =
      rw (refused_sessions backend env t.runtime.config t.runtime world ed now refused) h
  note_stands {t} (disconnects ed now) before client_id h =
      lookup_session-on_disconnect env t.runtime ed now client_id ∙ rw h
  note_stands {t} (messages ed now) before client_id h =
      rw (on_message_sessions env t.runtime ed now) h
  note_stands (takes job rest e) before client_id h = h
  note_stands (moves p e) before client_id h = h
  note_stands (stores s f) before client_id h = h

  -- The session map is a view of the events: whatever happens and in whatever order, the session
  -- found under a client id is the one of the last admission under it, and there is none where there
  -- was no admission, or a disconnect of that client id came after the last one. (The session map
  -- starts empty. An admission under the empty client id counts for nothing.)
  pub sessions_stand :
      {t n : Trace (backend.State)} (run : Events backend env t n) (client_id : Bytes)
      → t.runtime.sessions ≡ []
      → lookup_session n.runtime.sessions client_id ≡ standing (notes run) client_id
  unfolding notes standing
  sessions_stand done client_id start = rw start (lookup_session_nil client_id)
  sessions_stand (more run event) client_id start =
      note_stands event (notes run) client_id (sessions_stand run client_id start)
