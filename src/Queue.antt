-- ===== src/Queue.antt =====
-- src/realtime_queue.rs: the bounded queue between two threads, with its counters. A queue is both
-- endpoints and the metrics that they share; a call of an endpoint is one step. The ring of the crate
-- rtrb is a parameter, and a panic is `none`.
pub mod Ring
pub mod Calls
mod Fifo
mod Tests
use freewheeling_plus.Prelude.{
  ℕ, ◌+◌, ◌%◌, ◌^◌, ◌==◌, Option, none, some, if◌then◌else◌, Result, ok, err,
}
use Ring.{RingBuffer}

pub record QueueMetrics : Type 0 where
  pub rejected : ℕ
  pub received : ℕ
  pub sent : ℕ

-- `fetch_add(1)` of an `AtomicU64` wraps.
unfoldable pub count_one : ℕ → ℕ
count_one n = (n + 1) % 2 ^ 64

module _ {T : Type 0} (R : RingBuffer T) where
  pub record Queue : Type 0 where
    pub ring : R.Ring
    pub metrics : QueueMetrics

  unfoldable pub bounded : ℕ → Option Queue
  bounded capacity =
      if capacity == 0
      then none
      else some (record {
        ring = R.new capacity;
        metrics = record { rejected = 0; received = 0; sent = 0 };
      })

  -- `try_send` by what the ring's `push` gives.
  unfoldable pub pushed : Queue → Result T R.Ring → Queue × Result T (Unit {0})
  unfolding count_one
  pushed q (ok ring) = (
    record { ring = ring; metrics = record q.metrics { sent = count_one q.metrics.sent } },
    ok tt,
  )
  pushed q (err value) = (
    record q { metrics = record q.metrics { rejected = count_one q.metrics.rejected } },
    err value,
  )

  unfoldable pub try_send : Queue → T → Queue × Result T (Unit {0})
  unfolding pushed
  try_send q value = pushed q (R.push q.ring value)

  -- `try_recv` by what the ring's `pop` gives.
  unfoldable pub popped : Queue → Option (T × R.Ring) → Queue × Option T
  unfolding count_one
  popped q (some (value, ring)) = (
    record { ring = ring; metrics = record q.metrics { received = count_one q.metrics.received } },
    some value,
  )
  popped q none = (q, none)

  unfoldable pub try_recv : Queue → Queue × Option T
  unfolding popped
  try_recv q = popped q (R.pop q.ring)

  pub available_slots : Queue → ℕ
  available_slots q = R.free_slots q.ring

  pub available_items : Queue → ℕ
  available_items q = R.used_slots q.ring
