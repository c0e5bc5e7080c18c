-- ===== src/Publisher.antt =====
-- src/nats_publisher.go: the bounded queue between the broker thread and NATS. Each operation is a
-- function of the publisher's state; `Publisher/Machine` interleaves them.
pub mod Machine
use mapex_mqttbroker.Common.{
  ℕ, zero, suc, Bool, true, false, not, Option, none, some, List, [], ◌∷◌, ◌++◌, ltb, if◌then◌else◌,
  length, Bytes,
}
use mapex_mqttbroker.Common.Int.{ℤ, pos, negsuc, increment}
use mapex_mqttbroker.Json.{Json}

-- The bytes of a job are kept as the document that they render.
pub record PublishJob : Type 0 where
  pub subject : Bytes
  pub message : Json

-- `queue` is the channel's buffer, its head the next job to be received.
pub record AsyncPublisher : Type 0 where
  pub queue : List PublishJob
  pub buffer_size : ℕ
  pub workers : ℕ
  pub started : Bool
  pub closed : Bool
  pub queue_closed : Bool
  pub enqueued : ℕ
  pub published : ℕ
  pub publish_err : ℕ
  pub dropped : ℕ
  pub dropped_no_start : ℕ
  pub panics : ℕ

pub data PublisherError : Type 0 where
  publisher_is_nil buffer_size_not_positive workers_not_positive : PublisherError

pub data Built {ℓ} (A E : Type ℓ) : Type ℓ where
  built : A → Built A E
  refused : E → Built A E

abbrev pub fresh : ℕ → ℕ → AsyncPublisher
fresh buffer_size workers = record {
  queue = [];
  buffer_size = buffer_size;
  workers = workers;
  started = false;
  closed = false;
  queue_closed = false;
  enqueued = 0;
  published = 0;
  publish_err = 0;
  dropped = 0;
  dropped_no_start = 0;
  panics = 0;
}

-- The first argument says whether the `NatsPublisher` is not nil.
unfoldable pub new_async_publisher : Bool → ℤ → ℤ → Built AsyncPublisher PublisherError
new_async_publisher false buffer_size workers = refused publisher_is_nil
new_async_publisher true (negsuc _) workers = refused buffer_size_not_positive
new_async_publisher true (pos zero) workers = refused buffer_size_not_positive
new_async_publisher true (pos (suc b)) (negsuc _) = refused workers_not_positive
new_async_publisher true (pos (suc b)) (pos zero) = refused workers_not_positive
new_async_publisher true (pos (suc b)) (pos (suc w)) = built (fresh (suc b) (suc w))

-- `none` is the panic of a second call. The workers run from here on.
unfoldable pub start : AsyncPublisher → Option AsyncPublisher
start p = if p.started then none else some (record p { started = true })

-- A call before `Start`.
unfoldable pub drop_no_start : AsyncPublisher → AsyncPublisher
drop_no_start p = record p {
  dropped_no_start = increment p.dropped_no_start;
  dropped = increment p.dropped;
}

-- One more dropped event.
unfoldable pub drop_one : AsyncPublisher → AsyncPublisher
drop_one p = record p { dropped = increment p.dropped }

-- The `select`: a send that never blocks.
unfoldable pub try_send : AsyncPublisher → PublishJob → Bool × AsyncPublisher
unfolding drop_one
try_send p job =
    if ltb (length p.queue) p.buffer_size
    then (true, record p { queue = p.queue ++ job ∷ []; enqueued = increment p.enqueued })
    else (false, drop_one p)

unfoldable pub enqueue : AsyncPublisher → PublishJob → Bool × AsyncPublisher
enqueue p job =
    if not p.started
    then (false, drop_no_start p)
    else if p.closed
    then (false, p)
    else try_send p job

-- The first half of `Drain`, under the lock: `closed` is set and the channel closed, once.
unfoldable pub close_queue : AsyncPublisher → AsyncPublisher
close_queue p = if p.closed then p else record p { closed = true; queue_closed = true }

-- What `pub.Publish` does with one job.
pub data Outcome : Type 0 where
  delivered rejected panicked : Outcome

unfoldable pub publish_one : AsyncPublisher → Outcome → AsyncPublisher
publish_one p delivered = record p { published = increment p.published }
publish_one p rejected = record p { publish_err = increment p.publish_err }
publish_one p panicked = record p {
  panics = increment p.panics;
  publish_err = increment p.publish_err;
}
