-- ===== src/Publisher/Machine/Termination.antt =====
-- How long `Drain` can have to wait: the steps that the workers still take once the channel is
-- closed, whoever else goes on calling `Enqueue` or `Drain`.
use mapex_mqttbroker.Common.{
  ℕ, ◌+◌, ◌*◌, ◌≤◌, ◌<◌, ◌≡◌, refl, sym, ap, ◌∙◌, subst, ◌⊎◌, inl, inr, true, arith, length,
}
use mapex_mqttbroker.Publisher.{
  start, drop_no_start, drop_one, publish_one, fresh, delivered, rejected, panicked,
}
use mapex_mqttbroker.Publisher.Machine.{
  Machine, boot, send, close_channel, Step, Steps, done, more, starts, refuses_early, enters,
  read_locks, finds_closed, finds_open, sends, counts, drops, write_locks, already_closed,
  sets_closed, closes, receives, publishes, exits,
}
use mapex_mqttbroker.Publisher.Machine.Invariant.{IsGuarded, length_of_Pick}
use mapex_mqttbroker.Publisher.Machine.Reachable.{Inv, Steps-Inv, boot-Inv}
use mapex_mqttbroker.Publisher.Machine.Drain.{work, by_worker, next_step}

abbrev pub worker_steps : {m n : Machine} → Steps m n → ℕ
worker_steps done = 0
worker_steps (more r s) = worker_steps r + by_worker s

-- A started publisher whose channel is closed.
pub record IsClosing (m : Machine) : Type 0 where
  pub running : m.started ≡ true
  pub shut : m.queue_closed ≡ true

-- What one step leaves of the work.
abbrev Pays : {m n : Machine} → Step m n → Type 0
Pays {m} {n} s = IsClosing n × (n.workers ≡ m.workers) × (by_worker s + work n ≤ work m)

Step-Pays : {m n : Machine} → IsGuarded m → IsClosing m → (s : Step m n) → Pays s
unfolding start drop_no_start drop_one publish_one send close_channel
Step-Pays g c (starts p e) = ground arith
Step-Pays g c (refuses_early e) = ground arith
Step-Pays g c (enters job e) = ground arith
Step-Pays g c (read_locks job rest p e) = ground arith
Step-Pays g c (finds_closed job rest p e) = ground arith
Step-Pays g c (finds_open job rest p e) = ground arith
Step-Pays g c (sends job rest p) = ground (arith, length_of_Pick p)
Step-Pays g c (counts n e) = ground arith
Step-Pays g c (drops n e) = ground arith
Step-Pays g c (write_locks e e' e'' k l) = ground arith
Step-Pays g c (already_closed e e') = ground arith
Step-Pays g c (sets_closed e e') = ground arith
Step-Pays g c (closes e) = ground arith
Step-Pays {m} g c (receives job rest n e e') = ground (arith, ap length e')
Step-Pays g c (publishes job rest delivered p) = ground (arith, length_of_Pick p)
Step-Pays g c (publishes job rest rejected p) = ground (arith, length_of_Pick p)
Step-Pays g c (publishes job rest panicked p) = ground (arith, length_of_Pick p)
Step-Pays g c (exits n e e' e'') = ground arith

Steps-work :
    {m n : Machine}
    → Inv m
    → IsClosing m
    → (r : Steps m n) → IsClosing n × (n.workers ≡ m.workers) × (worker_steps r + work n ≤ work m)
Steps-work v c done = (c, refl, omega arith)
Steps-work v c (more r s) =
    let (closing, manned, paid) = Steps-work v c r in
    let (closing', manned', paid') = Step-Pays (Steps-Inv v r).guarded closing s in
    (closing', manned' ∙ manned, omega arith)

-- `Drain` does not wait for ever: once the channel of a started publisher with workers is closed,
-- then however the workers, the producers and the callers of `Drain` take turns, the workers take
-- no more than three steps for each queued job, two for each job in hand and one for each worker
-- that waits; and until all of them have returned, one of them can take a step.
pub drain_terminates :
    (b w : ℕ) {m n : Machine}
    → Steps (boot (fresh b w)) m
    → m.started ≡ true
    → 0 < m.workers
    → m.queue_closed ≡ true
    → (r : Steps m n)
    → (worker_steps r ≤ 3 * length m.queue + 2 * length m.held + m.idle)
      × ((n.exited ≡ n.workers) ⊎ ((k : Machine) × (s : Step n k) × (by_worker s ≡ 1)))
drain_terminates b w {m} {n} reached s p c r =
    let v = Steps-Inv (boot-Inv b w) reached in
    let (closing, manned, paid) = Steps-work v (record { running = s; shut = c }) r in
    let next =
      next_step (λ _. delivered) n n.held n.queue n.idle (Steps-Inv v r) closing.running
        (subst (λ x. 0 < x) (sym manned) p) closing.shut refl refl refl in
    (omega arith, elim next [ inl e ↦ inl e | inr (k, works) ↦ inr (k, works.step, works.by) ])
