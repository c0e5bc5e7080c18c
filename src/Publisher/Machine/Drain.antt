-- ===== src/Publisher/Machine/Drain.antt =====
-- The wait of `Drain`: once the channel is closed, the workers can empty the queue and return.
use mapex_mqttbroker.Common.{
  ℕ, zero, suc, ◌+◌, ◌*◌, ◌<◌, ◌≡◌, refl, sym, ap, ◌∙◌, subst, ◌⊎◌, inl, inr, true, List, [], ◌∷◌,
  ◌++◌, arith, length,
}
use mapex_mqttbroker.Publisher.{
  PublishJob, AsyncPublisher, Outcome, publish_one, fresh, delivered, rejected, panicked,
}
use mapex_mqttbroker.Publisher.Machine.{
  Machine, here, boot, Step, Steps, done, more, receives, publishes, exits,
}
use mapex_mqttbroker.Publisher.Machine.Reachable.{Inv, Step-Inv, Steps-Inv, boot-Inv, jobs_settled}

Steps-trans : {m n k : Machine} → Steps m n → Steps n k → Steps m k
Steps-trans r done = r
Steps-trans r (more r' s) = more (Steps-trans r r') s

-- A step that publishes a job does so with this outcome.
abbrev pub Obeys : (PublishJob → Outcome) → {m n : Machine} → Step m n → Type 0
Obeys outcome (publishes job _ o _) = o ≡ outcome job
Obeys outcome _ = Unit

-- 1 for a step of a worker, 0 for any other.
abbrev pub by_worker : {m n : Machine} → Step m n → ℕ
by_worker (receives _ _ _ _ _) = 1
by_worker (publishes _ _ _ _) = 1
by_worker (exits _ _ _ _) = 1
by_worker _ = 0

-- The work that is left.
abbrev pub work : Machine → ℕ
work m = 3 * length m.queue + 2 * length m.held + m.idle

-- A worker's step on a closed channel.
pub record Works (outcome : PublishJob → Outcome) (m n : Machine) : Type 0 where
  pub step : Step m n
  pub by : by_worker step ≡ 1
  pub obeys : Obeys outcome step
  pub started : n.started ≡ m.started
  pub same_workers : n.workers ≡ m.workers
  pub closed : n.queue_closed ≡ m.queue_closed
  pub accepted : n.accepted ≡ m.accepted
  pub less : work n < work m

-- A run of workers' steps alone, which publishes each job with its outcome.
pub data Drains (outcome : PublishJob → Outcome) : Machine → Machine → Type 0 where
  drained : {m : Machine} → Drains outcome m m
  works :
      {m n k : Machine} (step : Step m n)
      → by_worker step ≡ 1
      → Obeys outcome step
      → Drains outcome n k
      → Drains outcome m k

pub Drains-Steps : (outcome : PublishJob → Outcome) {m n : Machine} → Drains outcome m n → Steps m n
Drains-Steps outcome drained = done
Drains-Steps outcome (works step by obeys run) =
    Steps-trans (more done step) (Drains-Steps outcome run)

-- What a run of workers comes to.
record Ends (outcome : PublishJob → Outcome) (m n : Machine) : Type 0 where
  run : Drains outcome m n
  returned : n.exited ≡ n.workers
  kept : n.accepted ≡ m.accepted
  still_started : n.started ≡ m.started
  still_manned : n.workers ≡ m.workers

Ends-step :
    {outcome : PublishJob → Outcome} {m n k : Machine}
    → Works outcome m n
    → Ends outcome n k
    → Ends outcome m k
Ends-step w v = record {
  run = works w.step w.by w.obeys v.run;
  returned = v.returned;
  kept = v.kept ∙ w.accepted;
  still_started = v.still_started ∙ w.started;
  still_manned = v.still_manned ∙ w.same_workers;
}

publish_one-fields :
    (p : AsyncPublisher) (o : Outcome)
    → ((publish_one p o).started ≡ p.started)
      × ((publish_one p o).workers ≡ p.workers)
      × ((publish_one p o).queue_closed ≡ p.queue_closed)
      × ((publish_one p o).queue ≡ p.queue)
unfolding publish_one
publish_one-fields p delivered = (refl, refl, refl, refl)
publish_one-fields p rejected = (refl, refl, refl, refl)
publish_one-fields p panicked = (refl, refl, refl, refl)

module _ (outcome : PublishJob → Outcome) where
  publish_step :
      (m : Machine) (job : PublishJob) (held : List PublishJob)
      → m.held ≡ job ∷ held
      → (n : Machine) × Works outcome m n
  publish_step m job held e =
      let (s, w, c, q) = publish_one-fields m.state (outcome job) in
      (
        record m { state = publish_one m.state (outcome job); idle = suc m.idle; held = held },
        record {
          step = publishes job held (outcome job) (rw e here);
          by = refl;
          obeys = refl;
          started = s;
          same_workers = w;
          closed = c;
          accepted = refl;
          less = ground (arith, ap length q, ap length e);
        },
      )

  receive_step :
      (m : Machine) (job : PublishJob) (queue : List PublishJob) (idle : ℕ)
      → m.queue ≡ job ∷ queue
      → m.idle ≡ suc idle
      → (n : Machine) × Works outcome m n
  receive_step m job queue idle e ei = (
    record m {
      state = record (m.state) { queue = queue };
      idle = idle;
      held = job ∷ m.held;
      received = m.received ++ job ∷ [];
    },
    record {
      step = receives job queue idle ei e;
      by = refl;
      obeys = tt;
      started = refl;
      same_workers = refl;
      closed = refl;
      accepted = refl;
      less = ground (arith, ap length e);
    },
  )

  exit_step :
      (m : Machine) (idle : ℕ)
      → m.queue ≡ []
      → m.queue_closed ≡ true
      → m.idle ≡ suc idle
      → (n : Machine) × Works outcome m n
  exit_step m idle e c ei = (
    record m { idle = idle; exited = suc m.exited },
    record {
      step = exits idle ei e c;
      by = refl;
      obeys = tt;
      started = refl;
      same_workers = refl;
      closed = refl;
      accepted = refl;
      less = ground arith;
    },
  )

  -- Until all workers have returned, one of them can take a step.
  pub next_step :
      (m : Machine) (held queue : List PublishJob) (idle : ℕ)
      → Inv m
      → m.started ≡ true
      → 0 < m.workers
      → m.queue_closed ≡ true
      → m.held ≡ held
      → m.queue ≡ queue
      → m.idle ≡ idle
      → (m.exited ≡ m.workers) ⊎ ((n : Machine) × Works outcome m n)
  next_step m (job ∷ held) queue idle v s p c eh eq ei = inr (publish_step m job held eh)
  next_step m [] (job ∷ queue) (suc idle) v s p c eh eq ei =
      inr (receive_step m job queue idle eq ei)
  next_step m [] (job ∷ queue) zero v s p c eh eq ei = absurd (ground arith)
  next_step m [] [] (suc idle) v s p c eh eq ei = inr (exit_step m idle eq c ei)
  next_step m [] [] zero v s p c eh eq ei = inl (ground arith)

  drain_from :
      (fuel : ℕ) (m : Machine)
      → Inv m
      → m.started ≡ true
      → 0 < m.workers
      → m.queue_closed ≡ true
      → work m < fuel
      → (n : Machine) × Ends outcome m n
  drain_from zero m v s p c h = absurd (omega arith)
  drain_from (suc fuel) m v s p c h =
      elim (next_step m m.held m.queue m.idle v s p c refl refl refl) [
        | inl e ↦ (
          m,
          record {
            run = drained;
            returned = e;
            kept = refl;
            still_started = refl;
            still_manned = refl;
          },
        )
        | inr (n, w) ↦
            let (k, ends) =
              drain_from fuel n (Step-Inv v w.step) (w.started ∙ s) (ground arith) (w.closed ∙ c)
                (ground arith) in
            (k, Ends-step w ends)
      ]

-- `Drain` can come to its end, whatever `Publish` does with each job: from every reachable state in
-- which the channel of a started publisher with workers is closed, and for every choice of the
-- outcome of each job, there is a run of workers' steps alone, in which each job that is published
-- meets its outcome, to a state in which all workers have returned and have received every job that
-- had been accepted.
pub drain_completes :
    (b w : ℕ) (outcome : PublishJob → Outcome) {m : Machine}
    → Steps (boot (fresh b w)) m
    → m.started ≡ true
    → 0 < m.workers
    → m.queue_closed ≡ true
    → (n : Machine) × Drains outcome m n × (n.exited ≡ n.workers) × (n.received ≡ m.accepted)
drain_completes b w outcome {m} r s p c =
    let (n, ends) =
      drain_from outcome (suc (work m)) m (Steps-Inv (boot-Inv b w) r) s p c (omega arith) in
    let settled =
      jobs_settled b w (Steps-trans r (Drains-Steps outcome ends.run)) (ends.still_started ∙ s)
        (subst (λ x. 0 < x) (sym ends.still_manned) p) ends.returned in
    (n, ends.run, ends.returned, settled.1 ∙ ends.kept)
