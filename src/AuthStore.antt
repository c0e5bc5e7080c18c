-- ===== src/AuthStore.antt =====
-- The interface `AuthStore` of src/auth_store.go, and the outside world that a call meets.
use mapex_mqttbroker.Common.{Option, Bytes}
use mapex_mqttbroker.Entry.{AuthEntry}

-- `ErrAuthEntryNotFound`, `ErrAuthStoreUnavailable`, and any other error value.
pub data StoreError : Type 0 where
  not_found unavailable failed : StoreError

pub data Result {ℓ} (A : Type ℓ) : Type ℓ where
  ok : A → Result A
  err : StoreError → Result A

-- A store is its state and three methods; `World` is what the network and the clock answer while
-- the method runs.
pub record AuthStore (World : Type 0) : Type 1 where
  pub State : Type 0
  pub get : World → State → Bytes → Result AuthEntry × State
  pub invalidate : State → Bytes → Option StoreError × State
  pub close : State → Option StoreError × State
