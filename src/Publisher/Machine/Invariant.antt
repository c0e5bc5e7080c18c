-- ===== src/Publisher/Machine/Invariant.antt =====
-- What holds of the publisher in every state that its threads can reach.
use mapex_mqttbroker.Common.{
  ℕ, suc, ◌+◌, ◌%◌, ◌^◌, ◌≤◌, ◌≡◌, refl, ap, ◌≢◌, ◌⊎◌, true, false, List, [], ◌∷◌, ◌++◌,
  append_assoc, arith, length, length-append,
}
use mapex_mqttbroker.Publisher.{
  start, drop_no_start, drop_one, publish_one, fresh, delivered, rejected, panicked,
}
use mapex_mqttbroker.Publisher.Machine.{
  Machine, Pick, boot, send, close_channel, Step, absent, closing, here, there, starts,
  refuses_early, enters, read_locks, finds_closed, finds_open, sends, counts, drops, write_locks,
  already_closed, sets_closed, closes, receives, publishes, exits,
}

pub length_of_Pick {ℓ} :
    {A : Type ℓ} {x : A} {xs ys : List A} → Pick x xs ys → length xs ≡ suc (length ys)
length_of_Pick here = refl
length_of_Pick (there p) = ap suc (length_of_Pick p)

-- The lock keeps a send and a close apart.
pub record IsGuarded (m : Machine) : Type 0 where
  pub safe : m.crashed ≡ false
  pub open_send : ((m.sending ≡ []) × (m.counting ≡ 0)) ⊎ (m.closed ≡ false)
  pub excluded : (m.writer ≡ absent) ⊎ ((m.locked ≡ []) × (m.sending ≡ []) × (m.counting ≡ 0))
  pub agrees :
      ((m.writer ≡ closing) × (m.closed ≡ true) × (m.queue_closed ≡ false))
      ⊎ ((m.writer ≢ closing) × (m.closed ≡ m.queue_closed))

pub boot-IsGuarded : (b w : ℕ) → IsGuarded (boot (fresh b w))
boot-IsGuarded b w = ground arith

pub Step-IsGuarded : {m n : Machine} → IsGuarded m → Step m n → IsGuarded n
unfolding start drop_no_start drop_one publish_one send close_channel
Step-IsGuarded v (starts p e) = ground arith
Step-IsGuarded v (refuses_early e) = ground arith
Step-IsGuarded v (enters job e) = ground arith
Step-IsGuarded v (read_locks job rest p e) = ground arith
Step-IsGuarded v (finds_closed job rest p e) = ground (arith, length_of_Pick p)
Step-IsGuarded v (finds_open job rest p e) = ground (arith, length_of_Pick p)
Step-IsGuarded v (sends job rest p) = ground (arith, length_of_Pick p)
Step-IsGuarded v (counts n e) = ground arith
Step-IsGuarded v (drops n e) = ground arith
Step-IsGuarded v (write_locks e e' e'' c d) = ground arith
Step-IsGuarded v (already_closed e e') = ground arith
Step-IsGuarded v (sets_closed e e') = ground arith
Step-IsGuarded v (closes e) = ground arith
Step-IsGuarded v (receives job rest n e e') = ground arith
Step-IsGuarded v (publishes job rest outcome p) = ground arith
Step-IsGuarded v (exits n e e' e'') = ground arith

-- The queue keeps to its buffer, the workers are all accounted for, and a worker returns only when
-- the channel is closed and empty.
pub record IsPooled (m : Machine) : Type 0 where
  pub bounded : length m.queue ≤ m.buffer_size
  pub manned :
      ((m.started ≡ true) × (m.idle + length m.held + m.exited ≡ m.workers))
      ⊎ ((m.started ≡ false) × (m.idle ≡ 0) × (m.held ≡ []) × (m.exited ≡ 0))
  pub drained : (m.exited ≡ 0) ⊎ ((m.queue ≡ []) × (m.queue_closed ≡ true))

pub boot-IsPooled : (b w : ℕ) → IsPooled (boot (fresh b w))
boot-IsPooled b w = ground arith

pub Step-IsPooled : {m n : Machine} → IsGuarded m → IsPooled m → Step m n → IsPooled n
unfolding start drop_no_start drop_one publish_one send close_channel
Step-IsPooled g v (starts p e) = ground arith
Step-IsPooled g v (refuses_early e) = ground arith
Step-IsPooled g v (enters job e) = ground arith
Step-IsPooled g v (read_locks job rest p e) = ground arith
Step-IsPooled g v (finds_closed job rest p e) = ground arith
Step-IsPooled g v (finds_open job rest p e) = ground arith
Step-IsPooled {m} g v (sends job rest p) =
    ground (arith, length_of_Pick p, length-append m.queue (job ∷ []))
Step-IsPooled g v (counts n e) = ground arith
Step-IsPooled g v (drops n e) = ground arith
Step-IsPooled g v (write_locks e e' e'' c d) = ground arith
Step-IsPooled g v (already_closed e e') = ground arith
Step-IsPooled g v (sets_closed e e') = ground arith
Step-IsPooled g v (closes e) = ground arith
Step-IsPooled g v (receives job rest n e e') = ground arith
Step-IsPooled g v (publishes job rest delivered p) = ground (arith, length_of_Pick p)
Step-IsPooled g v (publishes job rest rejected p) = ground (arith, length_of_Pick p)
Step-IsPooled g v (publishes job rest panicked p) = ground (arith, length_of_Pick p)
Step-IsPooled g v (exits n e e' e'') = ground arith

-- No job is lost, counted twice or overtaken: those accepted are, in order, those that the workers
-- received and those in the queue, and the counters agree modulo 2^64, with the accepted jobs that
-- are not counted yet.
pub record IsCounted (m : Machine) : Type 0 where
  pub conserved :
      (m.enqueued + m.counting) % 2 ^ 64
      ≡ (m.published + m.publish_err + length m.queue + length m.held) % 2 ^ 64
  pub in_order : m.accepted ≡ m.received ++ m.queue

pub boot-IsCounted : (b w : ℕ) → IsCounted (boot (fresh b w))
boot-IsCounted b w = ground arith

pub Step-IsCounted : {m n : Machine} → IsCounted m → Step m n → IsCounted n
unfolding start drop_no_start drop_one publish_one send close_channel
Step-IsCounted v (starts p e) = ground arith
Step-IsCounted v (refuses_early e) = ground arith
Step-IsCounted v (enters job e) = ground arith
Step-IsCounted v (read_locks job rest p e) = ground arith
Step-IsCounted v (finds_closed job rest p e) = ground arith
Step-IsCounted v (finds_open job rest p e) = ground arith
Step-IsCounted {m} v (sends job rest p) =
    ground (arith, length-append m.queue (job ∷ []), append_assoc m.received m.queue (job ∷ []))
Step-IsCounted v (counts n e) = ground arith
Step-IsCounted v (drops n e) = ground arith
Step-IsCounted v (write_locks e e' e'' c d) = ground arith
Step-IsCounted v (already_closed e e') = ground arith
Step-IsCounted v (sets_closed e e') = ground arith
Step-IsCounted v (closes e) = ground arith
Step-IsCounted {m} v (receives job rest n e e') =
    ground (arith, append_assoc m.received (job ∷ []) rest)
Step-IsCounted v (publishes job rest delivered p) = ground (arith, length_of_Pick p)
Step-IsCounted v (publishes job rest rejected p) = ground (arith, length_of_Pick p)
Step-IsCounted v (publishes job rest panicked p) = ground (arith, length_of_Pick p)
Step-IsCounted v (exits n e e' e'') = ground arith
