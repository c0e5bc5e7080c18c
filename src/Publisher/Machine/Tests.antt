-- ===== src/Publisher/Machine/Tests.antt =====
-- A run of the machine: one job is queued, the channel is closed, and the worker delivers the job.
use mapex_mqttbroker.Common.{
  ◌+◌, ◌%◌, ◌^◌, ◌≤◌, ◌≡◌, refl, ◌⊎◌, true, false, [], ◌∷◌, ◌++◌, arith, length, codes,
}
use mapex_mqttbroker.Json.{Json}
use mapex_mqttbroker.Publisher.{
  PublishJob, AsyncPublisher, enqueue, publish_one, fresh, delivered, rejected, start,
}
use mapex_mqttbroker.Publisher.Machine.{
  Machine, Step, here, boot, send, close_channel, Steps, done, more, starts, enters, read_locks,
  finds_open, sends, counts, write_locks, sets_closed, closes, receives, publishes, exits,
}
use mapex_mqttbroker.Publisher.Machine.Termination.{worker_steps, drain_terminates}
use mapex_mqttbroker.Publisher.Machine.Reachable.{never_crashes, jobs_conserved, jobs_settled}
use mapex_mqttbroker.Publisher.Machine.Drain.{Drains, by_worker, drain_completes}
use mapex_mqttbroker.Publisher.Machine.Sequential.{after_enqueue, enqueue_runs}

abbrev job : PublishJob
job = record { subject = codes "s"; message = Json.null }

abbrev base : AsyncPublisher
base = record (fresh 2 1) { started = true }

abbrev queued : AsyncPublisher
queued = record base { queue = job ∷ []; enqueued = 1 }

-- Queued and closed.
abbrev shut : Machine
shut = record (boot (record queued { closed = true; queue_closed = true })) {
  idle = 1;
  accepted = job ∷ [];
}

abbrev over : Machine
over =
    record (boot
      (record base { closed = true; queue_closed = true; enqueued = 1; published = 1 })) {
        exited = 1;
        accepted = job ∷ [];
        received = job ∷ [];
      }

-- The worker has taken the job.
abbrev taken : Machine
taken = record (boot (record base { closed = true; queue_closed = true; enqueued = 1 })) {
  held = job ∷ [];
  accepted = job ∷ [];
  received = job ∷ [];
}

to_shut : Steps (boot (fresh 2 1)) shut
unfolding start send close_channel
to_shut =
    more
      (more
        (more
          (more
            (more
              (more
                (more (more (more done (starts base refl)) (enters job refl))
                  (read_locks job [] here refl))
                (finds_open job [] here refl))
              (sends job [] here))
            (counts 0 refl))
          (write_locks refl refl refl refl refl))
        (sets_closed refl refl))
      (closes refl)

to_over : Steps (boot (fresh 2 1)) over
unfolding publish_one
to_over =
    more (more (more to_shut (receives job [] 0 refl refl)) (publishes job [] delivered here))
      (exits 0 refl refl refl)

never_crashes_example : shut.crashed ≡ false
never_crashes_example = never_crashes 2 1 to_shut

-- The worker has published the job before its producer counts it.
abbrev overtaken : Machine
overtaken = record (boot (record base { published = 1 })) {
  counting = 1;
  idle = 1;
  accepted = job ∷ [];
  received = job ∷ [];
}

to_overtaken : Steps (boot (fresh 2 1)) overtaken
unfolding start send publish_one
to_overtaken =
    let sent =
      more
        (more
          (more (more (more done (starts base refl)) (enters job refl))
            (read_locks job [] here refl))
          (finds_open job [] here refl))
        (sends job [] here) in
    more (more sent (receives job [] 0 refl refl)) (publishes job [] delivered here)

jobs_conserved_example :
    (length overtaken.queue ≤ overtaken.buffer_size)
    × (overtaken.accepted ≡ overtaken.received ++ overtaken.queue)
    × ((overtaken.enqueued + overtaken.counting) % 2 ^ 64
        ≡ (overtaken.published
            + overtaken.publish_err
            + length overtaken.queue
            + length overtaken.held)
          % 2 ^ 64)
jobs_conserved_example = jobs_conserved 2 1 to_overtaken

jobs_settled_example :
    (over.queue_closed ≡ true)
    × (over.received ≡ over.accepted)
    × (over.held ≡ [])
    × (over.enqueued % 2 ^ 64 ≡ (over.published + over.publish_err) % 2 ^ 64)
jobs_settled_example = jobs_settled 2 1 to_over refl (omega arith) refl

drain_completes_example :
    (n : Machine) × Drains (λ _. rejected) shut n
    × (n.exited ≡ n.workers)
    × (n.received ≡ shut.accepted)
drain_completes_example = drain_completes 2 1 (λ _. rejected) to_shut refl (omega arith) refl

enqueue_runs_example : Steps shut (after_enqueue shut job (enqueue shut.state job))
enqueue_runs_example = enqueue_runs 2 1 job to_shut refl

abbrev to_taken : Steps shut taken
to_taken = more done (receives job [] 0 refl refl)

drain_terminates_example :
    (worker_steps to_taken ≤ 4)
    × ((taken.exited ≡ 1) ⊎ ((k : Machine) × (s : Step taken k) × (by_worker s ≡ 1)))
drain_terminates_example = drain_terminates 2 1 to_shut refl (omega arith) refl to_taken
