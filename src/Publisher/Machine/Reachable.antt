-- ===== src/Publisher/Machine/Reachable.antt =====
-- Every state that the threads of src/nats_publisher.go can reach from a new publisher.
use mapex_mqttbroker.Common.{
  ℕ, ◌+◌, ◌%◌, ◌^◌, ◌≤◌, ◌<◌, ◌≡◌, true, false, [], ◌++◌, append-nil, arith, length,
}
use mapex_mqttbroker.Publisher.{fresh}
use mapex_mqttbroker.Publisher.Machine.{Machine, boot, Step, Steps, done, more}
use mapex_mqttbroker.Publisher.Machine.Invariant.{
  IsGuarded, IsPooled, IsCounted, Step-IsGuarded, Step-IsPooled, Step-IsCounted, boot-IsGuarded,
  boot-IsPooled, boot-IsCounted,
}

pub record Inv (m : Machine) : Type 0 where
  pub guarded : IsGuarded m
  pub pooled : IsPooled m
  pub counted : IsCounted m

pub Step-Inv : {m n : Machine} → Inv m → Step m n → Inv n
Step-Inv v s = record {
  guarded = Step-IsGuarded v.guarded s;
  pooled = Step-IsPooled v.guarded v.pooled s;
  counted = Step-IsCounted v.counted s;
}

pub boot-Inv : (b w : ℕ) → Inv (boot (fresh b w))
boot-Inv b w = record {
  guarded = boot-IsGuarded b w;
  pooled = boot-IsPooled b w;
  counted = boot-IsCounted b w;
}

pub Steps-Inv : {m n : Machine} → Inv m → Steps m n → Inv n
Steps-Inv v done = v
Steps-Inv v (more r s) = Step-Inv (Steps-Inv v r) s

-- Whatever the producers, the callers of `Drain` and the workers do, and in whatever order, no one
-- sends on the closed channel or closes it twice.
pub never_crashes : (b w : ℕ) {m : Machine} → Steps (boot (fresh b w)) m → m.crashed ≡ false
never_crashes b w r = (Steps-Inv (boot-Inv b w) r).guarded.safe

-- In every reachable state the queue keeps to its buffer size, the accepted jobs are those that
-- the workers received followed by those in the queue, in the order of acceptance, and `enqueued`,
-- with the producers that have sent their job and not counted it yet, counts the published, the
-- failed, the queued and the held ones, modulo 2^64.
pub jobs_conserved :
    (b w : ℕ) {m : Machine}
    → Steps (boot (fresh b w)) m
    → (length m.queue ≤ m.buffer_size)
      × (m.accepted ≡ m.received ++ m.queue)
      × ((m.enqueued + m.counting) % 2 ^ 64
          ≡ (m.published + m.publish_err + length m.queue + length m.held) % 2 ^ 64)
jobs_conserved b w r =
    let v = Steps-Inv (boot-Inv b w) r in
    (v.pooled.bounded, v.counted.in_order, v.counted.conserved)

-- When all workers of a started publisher have returned, and there was one, the channel is closed,
-- no job is left, and each accepted job was received and counted as published or failed.
pub jobs_settled :
    (b w : ℕ) {m : Machine}
    → Steps (boot (fresh b w)) m
    → m.started ≡ true
    → 0 < m.workers
    → m.exited ≡ m.workers
    → (m.queue_closed ≡ true)
      × (m.received ≡ m.accepted)
      × (m.held ≡ [])
      × (m.enqueued % 2 ^ 64 ≡ (m.published + m.publish_err) % 2 ^ 64)
jobs_settled b w {m} r s p e =
    let v = Steps-Inv (boot-Inv b w) r in
    let guarded = v.guarded in
    let pooled = v.pooled in let counted = v.counted in ground (arith, append-nil m.received)
