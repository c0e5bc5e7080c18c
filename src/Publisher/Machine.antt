-- ===== src/Publisher/Machine.antt =====
-- The threads of src/nats_publisher.go as a step relation: any number of producers in `Enqueue`
-- and of callers of `Drain`, the `closeMu` read-write lock, and the worker pool. A send on a closed
-- channel, or a second close of it, sets `crashed`: in Go both panic. A send and the count of it are
-- two steps. Where two counters are raised one after the other, as on an early refusal and after a
-- panic of `Publish`, the step raises both.
pub mod Invariant
pub mod Reachable
pub mod Drain
pub mod Sequential
pub mod Termination
mod Tests
use mapex_mqttbroker.Common.{
  ℕ, suc, ◌≡◌, Bool, true, false, some, List, [], ◌∷◌, ◌++◌, if◌then◌else◌, ltb, length,
}
use mapex_mqttbroker.Common.Int.{increment}
use mapex_mqttbroker.Publisher.{
  PublishJob, AsyncPublisher, start, drop_no_start, drop_one, Outcome, publish_one,
}

-- Where the holder of the write lock stands.
pub data Writer : Type 0 where
  absent checking closing : Writer

pub record Machine : Type 0 where
  pub state : AsyncPublisher
  pub open state use *
  -- Jobs of producers that read `started`, wait for the read lock, or are past the test of `closed`.
  pub entering : List PublishJob
  pub locked : List PublishJob
  pub sending : List PublishJob
  -- How many producers are past the `select`, still under the read lock, and have yet to add 1 to
  -- `enqueued`, or to `dropped`.
  pub counting : ℕ
  pub dropping : ℕ
  pub writer : Writer
  -- Workers that wait for a job, jobs that a worker is publishing, workers that have returned.
  pub idle : ℕ
  pub held : List PublishJob
  pub exited : ℕ
  pub crashed : Bool
  -- Every job that was accepted, and every job that a worker received, in order.
  pub accepted : List PublishJob
  pub received : List PublishJob

-- `Pick x xs ys`: `ys` is `xs` without one `x`.
pub data Pick {ℓ} {A : Type ℓ} (x : A) : List A → List A → Type ℓ where
  here : {xs : List A} → Pick x (x ∷ xs) xs
  there : {y : A} {xs ys : List A} → Pick x xs ys → Pick x (y ∷ xs) (y ∷ ys)

-- A machine before `Start`.
abbrev pub boot : AsyncPublisher → Machine
boot p = record {
  state = p;
  entering = [];
  locked = [];
  sending = [];
  counting = 0;
  dropping = 0;
  writer = absent;
  idle = 0;
  held = [];
  exited = 0;
  crashed = false;
  accepted = [];
  received = [];
}

-- The `select` of `Enqueue` under the read lock: `p.queue <- job`, or its default. Neither case has
-- counted the job yet, but a worker can receive it from here on.
unfoldable pub send : Machine → PublishJob → List PublishJob → Machine
send m job sending =
    if m.queue_closed
    then record m { crashed = true; sending = sending }
    else if ltb (length m.queue) m.buffer_size
    then record m {
      state = record (m.state) { queue = m.queue ++ job ∷ [] };
      sending = sending;
      counting = suc m.counting;
      accepted = m.accepted ++ job ∷ [];
    }
    else record m { sending = sending; dropping = suc m.dropping }

-- `close(p.queue); p.closeMu.Unlock()`.
unfoldable pub close_channel : Machine → Machine
close_channel m =
    if m.queue_closed
    then record m { crashed = true; writer = absent }
    else record m { state = record (m.state) { queue_closed = true }; writer = absent }

pub data Step (m : Machine) : Machine → Type 0 where
  -- `Start`.
  starts :
      (p : AsyncPublisher)
      → start m.state ≡ some p
      → Step m (record m { state = p; idle = m.workers })
  -- `Enqueue` reads `started`.
  refuses_early : m.started ≡ false → Step m (record m { state = drop_no_start m.state })
  enters : (job : PublishJob) → m.started ≡ true → Step m (record m { entering = job ∷ m.entering })
  -- `closeMu.RLock()`.
  read_locks :
      (job : PublishJob) (rest : List PublishJob)
      → Pick job m.entering rest
      → m.writer ≡ absent
      → Step m (record m { entering = rest; locked = job ∷ m.locked })
  -- `if p.closed { return false }`.
  finds_closed :
      (job : PublishJob) (rest : List PublishJob)
      → Pick job m.locked rest
      → m.closed ≡ true
      → Step m (record m { locked = rest })
  finds_open :
      (job : PublishJob) (rest : List PublishJob)
      → Pick job m.locked rest
      → m.closed ≡ false
      → Step m (record m { locked = rest; sending = job ∷ m.sending })
  sends :
      (job : PublishJob) (rest : List PublishJob)
      → Pick job m.sending rest
      → Step m (send m job rest)
  -- `p.enqueued.Add(1)` or `p.dropped.Add(1)`, and the deferred `RUnlock`.
  counts :
      (n : ℕ)
      → m.counting ≡ suc n
      → Step m
          (record m { state = record (m.state) { enqueued = increment m.enqueued }; counting = n })
  drops :
      (n : ℕ) → m.dropping ≡ suc n → Step m (record m { state = drop_one m.state; dropping = n })
  -- `Drain`.
  write_locks :
      m.writer ≡ absent
      → m.locked ≡ []
      → m.sending ≡ []
      → m.counting ≡ 0
      → m.dropping ≡ 0
      → Step m (record m { writer = checking })
  already_closed : m.writer ≡ checking → m.closed ≡ true → Step m (record m { writer = absent })
  sets_closed :
      m.writer ≡ checking
      → m.closed ≡ false
      → Step m (record m { state = record (m.state) { closed = true }; writer = closing })
  closes : m.writer ≡ closing → Step m (close_channel m)
  -- `worker`.
  receives :
      (job : PublishJob) (rest : List PublishJob) (n : ℕ)
      → m.idle ≡ suc n
      → m.queue ≡ job ∷ rest
      → Step m (record m {
        state = record (m.state) { queue = rest };
        idle = n;
        held = job ∷ m.held;
        received = m.received ++ job ∷ [];
      })
  publishes :
      (job : PublishJob) (rest : List PublishJob) (outcome : Outcome)
      → Pick job m.held rest
      → Step m (record m { state = publish_one m.state outcome; idle = suc m.idle; held = rest })
  exits :
      (n : ℕ)
      → m.idle ≡ suc n
      → m.queue ≡ []
      → m.queue_closed ≡ true
      → Step m (record m { idle = n; exited = suc m.exited })

pub data Steps (m : Machine) : Machine → Type 0 where
  done : Steps m m
  more : {n k : Machine} → Steps m n → Step n k → Steps m k
