-- ===== src/Session.antt =====
-- The session map of src/plugin.go: `rememberSession`, `LookupSession`, `ForgetSession`.
use mapex_mqttbroker.Common.{
  ◌≡◌, refl, not, ◌&&◌, Option, none, some, List, [], ◌∷◌, arith, if◌then◌else◌, is_empty, Bytes,
  same, same_iff,
}

pub record SessionInfo : Type 0 where
  pub org_id : Bytes
  pub asset_uuid : Bytes

-- The `sync.Map`, from client ids. Only `rememberSession` stores, so each value is a `SessionInfo`.
abbrev pub Sessions : Type 0
Sessions = List (Bytes × SessionInfo)

load : Sessions → Bytes → Option SessionInfo
load [] key = none
load ((k, v) ∷ m) key = if same k key then some v else load m key

store : Sessions → Bytes → SessionInfo → Sessions
store [] key value = (key, value) ∷ []
store ((k, v) ∷ m) key value = if same k key then (k, value) ∷ m else (k, v) ∷ store m key value

delete : Sessions → Bytes → Sessions
delete [] key = []
delete ((k, v) ∷ m) key = if same k key then delete m key else (k, v) ∷ delete m key

unfoldable pub remember_session : Sessions → Bytes → Bytes → Bytes → Sessions
unfolding store
remember_session m client_id org_id asset_uuid =
    if is_empty client_id
    then m
    else store m client_id (record { org_id = org_id; asset_uuid = asset_uuid })

unfoldable pub lookup_session : Sessions → Bytes → Option SessionInfo
unfolding load
lookup_session m client_id = if is_empty client_id then none else load m client_id

unfoldable pub forget_session : Sessions → Bytes → Sessions
unfolding delete
forget_session m client_id = if is_empty client_id then m else delete m client_id

load-store :
    (m : Sessions) (key other : Bytes) (v : SessionInfo)
    → load (store m key v) other ≡ (if same key other then some v else load m other)
unfolding load store
load-store [] key other v = refl
load-store ((k, w) ∷ m) key other v =
    ground (arith, same_iff k key, same_iff k other, same_iff key other, load-store m key other v)

load-delete :
    (m : Sessions) (key other : Bytes)
    → load (delete m key) other ≡ (if same key other then none else load m other)
unfolding load delete
load-delete [] key other = ground arith
load-delete ((k, w) ∷ m) key other =
    ground (arith, same_iff k key, same_iff k other, same_iff key other, load-delete m key other)

-- A session remembered under a client id that is not empty is found under it, and every other
-- client keeps its own; under the empty client id nothing is remembered.
pub lookup_session-remember_session :
    (m : Sessions) (client_id other org_id asset_uuid : Bytes)
    → lookup_session (remember_session m client_id org_id asset_uuid) other ≡ (
        if same client_id other && not (is_empty client_id)
        then some (record { org_id = org_id; asset_uuid = asset_uuid })
        else lookup_session m other)
unfolding lookup_session remember_session
lookup_session-remember_session m client_id other org_id asset_uuid = ground (
  arith,
  same_iff client_id other,
  load-store m client_id other (record { org_id = org_id; asset_uuid = asset_uuid }),
)

-- A forgotten session is gone, and every other client keeps its own.
pub lookup_session-forget_session :
    (m : Sessions) (client_id other : Bytes)
    → lookup_session (forget_session m client_id) other
      ≡ (if same client_id other then none else lookup_session m other)
unfolding lookup_session forget_session
lookup_session-forget_session m client_id other =
    ground (arith, same_iff client_id other, load-delete m client_id other)
