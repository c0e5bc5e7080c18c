-- ===== src/Callbacks/Traces/Granted.antt =====
-- The devices and organizations that have been admitted, against the sessions and the jobs.
use mathlib.Core.List.{Mem, mem-cons_self, mem-cons_of_mem}
use mathlib.Core.Option.{some-injective}
use mapex_mqttbroker.Common.{
  ◌≡◌, sym, ◌∙◌, subst, ◌≢◌, inl, inr, Option, some, List, [], ◌∷◌, arith, if◌then◌else◌, All,
  All-append, Bytes, same, is_empty, not, ◌&&◌, true, false, Bool,
}
use mapex_mqttbroker.Callbacks.Traces.{Trace}
use mapex_mqttbroker.Callbacks.Traces.Sends.{JobOf, SendsFor}
use mapex_mqttbroker.Config.{Config}
use mapex_mqttbroker.Platform.{Platform}
use mapex_mqttbroker.Publisher.{PublishJob}
use mapex_mqttbroker.Runtime.{PluginRuntime}
use mapex_mqttbroker.Session.{
  SessionInfo, Sessions, remember_session, lookup_session, lookup_session-remember_session,
}

-- A job of a device and an organization that have been admitted.
abbrev pub IsOwned : Platform → Config → List SessionInfo → PublishJob → Type 0
IsOwned env c granted job = (who : SessionInfo) × Mem who granted × JobOf env c who job

-- Every session is one that was granted.
abbrev pub AreGranted : List SessionInfo → Sessions → Type 0
AreGranted granted m =
    (client_id : Bytes) (who : SessionInfo)
    → lookup_session m client_id ≡ some who
    → Mem who granted

module _ (env : Platform) (c : Config) where
  pub AllOwned-weaken :
      (granted : List SessionInfo) (who : SessionInfo) (jobs : List PublishJob)
      → All (IsOwned env c granted) jobs
      → All (IsOwned env c (who ∷ granted)) jobs
  AllOwned-weaken granted who [] h = h
  AllOwned-weaken granted who (job ∷ jobs) ((owner, m, mine), hs) =
      ((owner, mem-cons_of_mem who m, mine), AllOwned-weaken granted who jobs hs)

  pub record Owned {State : Type 0} (t : Trace State) : Type 0 where
    pub config : t.runtime.config ≡ c
    pub sessions : AreGranted t.granted t.runtime.sessions
    pub queued : All (IsOwned env c t.granted) t.runtime.async.queue
    pub left : All (IsOwned env c t.granted) t.taken

pub no_session : (client_id : Bytes) (who : SessionInfo) → lookup_session [] client_id ≢ some who
unfolding lookup_session
no_session client_id who = ground arith

pub AreGranted-remember :
    (granted : List SessionInfo) (m : Sessions) (client_id org_id asset_uuid : Bytes)
    → AreGranted granted m
    → AreGranted
        (record { org_id = org_id; asset_uuid = asset_uuid } ∷ granted)
        (remember_session m client_id org_id asset_uuid)
AreGranted-remember granted m client_id org_id asset_uuid h other who e =
    go (same client_id other && not (is_empty client_id))
      (sym (lookup_session-remember_session m client_id other org_id asset_uuid) ∙ e)
  where
    go :
        (b : Bool)
        → (if b
            then some (record { org_id = org_id; asset_uuid = asset_uuid })
            else lookup_session m other)
          ≡ some who
        → Mem who (record { org_id = org_id; asset_uuid = asset_uuid } ∷ granted)
    go true q =
        subst
          (λ (x : SessionInfo).
            Mem x (record { org_id = org_id; asset_uuid = asset_uuid } ∷ granted))
          (some-injective _ _ q) mem-cons_self
    go false q = mem-cons_of_mem _ (h other who q)

module _ {State : Type 0} (env : Platform) (c : Config) (granted : List SessionInfo)
    (r r' : PluginRuntime State) where
  -- The queue after a callback, whose client has a session that was granted.
  pub queued_after :
      (session : Option SessionInfo)
      → r.config ≡ c
      → ((who : SessionInfo) → session ≡ some who → Mem who granted)
      → All (IsOwned env c granted) r.async.queue
      → SendsFor env r r' session
      → (r'.config ≡ c) × All (IsOwned env c granted) r'.async.queue
  queued_after session k mem old (inr (config, queue)) =
      (config ∙ k, subst (All (IsOwned env c granted)) (sym queue) old)
  queued_after session k mem old (inl (who, mine, sent)) = (
    sent.config ∙ k,
    elim sent.queue [
      | inl (job, own, queued) ↦ subst (All (IsOwned env c granted)) (sym queued) (
          All-append (IsOwned env c granted) r.async.queue (job ∷ []) old
            ((who, mem who mine, subst (λ x. JobOf env x who job) k own), tt))
      | inr kept ↦ subst (All (IsOwned env c granted)) (sym kept) old
    ],
  )
