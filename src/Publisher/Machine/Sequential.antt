-- ===== src/Publisher/Machine/Sequential.antt =====
-- `Enqueue` and the closing of `Drain` (src/nats_publisher.go), called while no one else holds the
-- lock: the functions of `Publisher` are runs of the machine.
use mapex_mqttbroker.Common.{
  ℕ, suc, ltb, length, ◌≡◌, refl, sym, ap, ◌∙◌, subst, inl, inr, Bool, true, false, List, [], ◌∷◌,
  ◌++◌, arith, if◌then◌else◌, Bool-cases,
}
use mapex_mqttbroker.Common.Int.{increment}
use mapex_mqttbroker.Publisher.{
  PublishJob, AsyncPublisher, fresh, try_send, enqueue, close_queue, drop_no_start, drop_one,
}
use mapex_mqttbroker.Publisher.Machine.{
  absent, checking, closing, Machine, here, boot, send, close_channel, Step, refuses_early, enters,
  read_locks, finds_closed, finds_open, sends, counts, drops, write_locks, already_closed,
  sets_closed, closes, Steps, done, more,
}
use mapex_mqttbroker.Publisher.Machine.Invariant.{IsGuarded}
use mapex_mqttbroker.Publisher.Machine.Reachable.{boot-Inv, Steps-Inv}

-- The machine after a whole call of `Enqueue` with this outcome.
abbrev pub after_enqueue : Machine → PublishJob → Bool × AsyncPublisher → Machine
after_enqueue m job out = record m {
  state = out.1;
  accepted = if out.0 then m.accepted ++ job ∷ [] else m.accepted;
}

enqueue_early :
    (p : AsyncPublisher) (job : PublishJob)
    → p.started ≡ false
    → enqueue p job ≡ (false, drop_no_start p)
unfolding enqueue
enqueue_early p job s = ground arith

enqueue_closed :
    (p : AsyncPublisher) (job : PublishJob)
    → p.started ≡ true
    → p.closed ≡ true
    → enqueue p job ≡ (false, p)
unfolding enqueue
enqueue_closed p job s c = ground arith

enqueue_open :
    (p : AsyncPublisher) (job : PublishJob)
    → p.started ≡ true
    → p.closed ≡ false
    → enqueue p job ≡ try_send p job
unfolding enqueue
enqueue_open p job s c = ground arith

try_send_room :
    (p : AsyncPublisher) (job : PublishJob)
    → ltb (length p.queue) p.buffer_size ≡ true
    → try_send p job
      ≡ (true, record p { queue = p.queue ++ job ∷ []; enqueued = increment p.enqueued })
unfolding try_send
try_send_room p job room = ground arith

try_send_full :
    (p : AsyncPublisher) (job : PublishJob)
    → ltb (length p.queue) p.buffer_size ≡ false
    → try_send p job ≡ (false, drop_one p)
unfolding try_send
try_send_full p job full = ground arith

-- The machine once the `select` of `Enqueue` has found room.
abbrev sent : Machine → PublishJob → Machine
sent m job = record m {
  state = record (m.state) { queue = m.queue ++ job ∷ [] };
  counting = suc m.counting;
  accepted = m.accepted ++ job ∷ [];
}

send_room :
    (m : Machine) (job : PublishJob) (rest : List PublishJob)
    → m.queue_closed ≡ false
    → ltb (length m.queue) m.buffer_size ≡ true
    → send m job rest ≡ record (sent m job) { sending = rest }
unfolding send
send_room m job rest q room = ground arith

send_full :
    (m : Machine) (job : PublishJob) (rest : List PublishJob)
    → m.queue_closed ≡ false
    → ltb (length m.queue) m.buffer_size ≡ false
    → send m job rest ≡ record m { sending = rest; dropping = suc m.dropping }
unfolding send
send_full m job rest q full = ground arith

-- The machine once `Enqueue` holds the read lock.
enqueue_locks :
    (m : Machine) (job : PublishJob)
    → m.started ≡ true
    → m.writer ≡ absent
    → Steps m (record m { locked = job ∷ m.locked })
enqueue_locks m job s w = more (more done (enters job s)) (read_locks job m.entering here w)

enqueue_sends :
    (m : Machine) (job : PublishJob)
    → m.started ≡ true
    → m.writer ≡ absent
    → m.closed ≡ false
    → m.queue_closed ≡ false
    → Steps m (after_enqueue m job (try_send m.state job))
enqueue_sends m job s w c q =
    let locked = enqueue_locks m job s w in
    let sending : Steps m (record m { sending = job ∷ m.sending }) =
      more locked (finds_open job m.locked here c) in
    let last = sends job m.sending here in
    let on = record m { sending = job ∷ m.sending } in
    elim (Bool-cases (ltb (length m.queue) m.buffer_size)) [
      | inl room ↦
          subst (λ o. Steps m (after_enqueue m job o)) (sym (try_send_room m.state job room))
            (more (more sending (subst (Step on) (send_room on job m.sending q room) last))
              (counts m.counting refl))
      | inr full ↦
          subst (λ o. Steps m (after_enqueue m job o)) (sym (try_send_full m.state job full))
            (more (more sending (subst (Step on) (send_full on job m.sending q full) last))
              (drops m.dropping refl))
    ]

enqueue_Steps :
    (m : Machine) (job : PublishJob)
    → IsGuarded m
    → m.writer ≡ absent
    → Steps m (after_enqueue m job (enqueue m.state job))
enqueue_Steps m job v w = elim (Bool-cases m.started) [
  | inl s ↦ elim (Bool-cases m.closed) [
    | inl c ↦
        subst (λ o. Steps m (after_enqueue m job o)) (sym (enqueue_closed m.state job s c))
          (more (enqueue_locks m job s w) (finds_closed job m.locked here c))
    | inr c ↦
        subst (λ o. Steps m (after_enqueue m job o)) (sym (enqueue_open m.state job s c))
          (enqueue_sends m job s w c (let a = v.agrees in ground arith))
  ]
  | inr s ↦
      subst (λ o. Steps m (after_enqueue m job o)) (sym (enqueue_early m.state job s))
        (more done (refuses_early s))
]

-- In every reachable state in which no `Drain` holds the lock, a whole call of `Enqueue` is a run of
-- the machine: it ends with the publisher that `enqueue` returns, the job is among the accepted ones
-- exactly when `enqueue` says so, and nothing else changes.
pub enqueue_runs :
    (b w : ℕ) {m : Machine} (job : PublishJob)
    → Steps (boot (fresh b w)) m
    → m.writer ≡ absent
    → Steps m (after_enqueue m job (enqueue m.state job))
enqueue_runs b w {m} job r e = enqueue_Steps m job (Steps-Inv (boot-Inv b w) r).guarded e

close_queue_once : (p : AsyncPublisher) → p.closed ≡ true → close_queue p ≡ p
unfolding close_queue
close_queue_once p c = ground arith

close_channel_open :
    (m : Machine) (p : AsyncPublisher)
    → p.closed ≡ false
    → p.queue_closed ≡ false
    → close_channel (record m { state = record p { closed = true }; writer = closing })
      ≡ record m { state = close_queue p; writer = absent }
unfolding close_channel close_queue
close_channel_open m p c q = ground arith

close_queue_Steps :
    (m : Machine)
    → IsGuarded m
    → m.writer ≡ absent
    → m.locked ≡ []
    → m.sending ≡ []
    → m.counting ≡ 0
    → m.dropping ≡ 0
    → Steps m (record m { state = close_queue m.state })
close_queue_Steps m v w l s k d =
    let locked : Steps m (record m { writer = checking }) = more done (write_locks w l s k d) in
    elim (Bool-cases m.closed) [
      | inl c ↦
          subst (λ p. Steps m (record m { state = p })) (sym (close_queue_once m.state c))
            (subst (λ x. Steps m (record m { writer = x })) (sym w)
              (more locked (already_closed refl c)))
      | inr c ↦
          let open_channel : m.queue_closed ≡ false = let a = v.agrees in ground arith in
          let held : Machine = record m {
            state = record (m.state) { closed = true };
            writer = closing;
          } in
          let target : close_channel held ≡ record m { state = close_queue m.state } =
            close_channel_open m m.state c open_channel
            ∙ ap {B = Machine} (λ x. record m { state = close_queue m.state; writer = x })
                (sym w) in
          more (more locked (sets_closed refl c)) (subst (Step held) target (closes refl))
    ]

-- In every reachable state in which no `Drain` and no `Enqueue` holds the lock, the closing of
-- `Drain` is a run of the machine: it ends with the publisher that `close_queue` returns, whether
-- it was closed before or not, and nothing else changes.
close_queue_runs :
    (b w : ℕ) {m : Machine}
    → Steps (boot (fresh b w)) m
    → m.writer ≡ absent
    → m.locked ≡ []
    → m.sending ≡ []
    → m.counting ≡ 0
    → m.dropping ≡ 0
    → Steps m (record m { state = close_queue m.state })
close_queue_runs b w {m} r e l s k d =
    close_queue_Steps m (Steps-Inv (boot-Inv b w) r).guarded e l s k d
