-- ===== src/Engine/Storage.antt =====
-- src/native_dsp_graph.rs: the blocks of a recording. The audio callback takes ready blocks from
-- `LoopStoragePool` and hands used ones back, and a worker thread replaces them; two bounded queues
-- lie between. `B` is the type of blocks. A call of one side is one step; the wake-ups of the worker
-- (`unpark`) only change when the next step comes.
mod Turns
pub mod Balance
pub mod Pool
pub mod Passes
mod Tests
use freewheeling_plus.Prelude.{
  ℕ, zero, suc, ◌+◌, ◌-◌, Bool, true, false, Option, none, some, List, [], ◌∷◌, ◌++◌, length,
  Result, ok, err, replicate,
}
use freewheeling_plus.Prelude.Options.{unwrap_or}
use freewheeling_plus.Queue.{Queue, try_send, try_recv, available_items}
use freewheeling_plus.Queue.Ring.{RingBuffer}

abbrev pub default_audio_blocks : ℕ
default_audio_blocks = 40

-- `Vec::pop`, of the last element; the new vector comes first.
pub pop_last {ℓ} : {A : Type ℓ} → List A → List A × Option A
pop_last [] = ([], none)
pop_last (x ∷ []) = ([], some x)
pop_last (x ∷ y ∷ ys) = let r = pop_last (y ∷ ys) in (x ∷ r.0, r.1)

module _ {B : Type 0} (R : RingBuffer B) where
  -- `capacity` is the capacity of the vector `free`. The shared counter of requests stands here, and
  -- with it the worker's vector of recycled blocks.
  pub record Storage : Type 0 where
    pub free : List B
    pub capacity : ℕ
    pub refills : Queue R
    pub returned : Queue R
    pub requests : ℕ
    pub recycled : List B

  -- `collect_refills`: the loop runs while `free` has room, at most `room` times.
  pub collect_loop : ℕ → Storage → Storage
  collect_loop zero s = s
  collect_loop (suc room) s =
      let r = try_recv R s.refills in
      elim r.1 [
        | none ↦ record s { refills = r.0 }
        | some storage ↦
            collect_loop room (record s { refills = r.0; free = s.free ++ storage ∷ [] })
      ]

  pub collect_refills : Storage → Storage
  collect_refills s = collect_loop (s.capacity - length s.free) s

  -- `add_block` on the blocks of a slot.
  pub take_block : Storage → List B → List B × Option B → Storage × List B × Bool
  take_block s blocks (free, none) = (record s { free = free }, blocks, false)
  take_block s blocks (free, some storage) =
      (record s { free = free; requests = s.requests + 1 }, blocks ++ storage ∷ [], true)

  pub add_block : Storage → List B → Storage × List B × Bool
  add_block s blocks =
      let collected = collect_refills s in take_block collected blocks (pop_last collected.free)

  -- `release_blocks`: it takes the blocks of a slot from the front, and stops at a full queue with
  -- the refused block at the back of the slot.
  pub release_blocks : Storage → List B → Storage × List B
  release_blocks s [] = (s, [])
  release_blocks s (storage ∷ blocks) =
      let r = try_send R s.returned storage in
      elim r.1 [
        | ok _ ↦ release_blocks (record s { returned = r.0 }) blocks
        | err full ↦ (record s { returned = r.0 }, blocks ++ full ∷ [])
      ]

  -- The worker's first loop: it takes what `returned` holds.
  pub drain_loop : ℕ → Storage → Storage
  drain_loop zero s = s
  drain_loop (suc n) s =
      let r = try_recv R s.returned in
      elim r.1 [
        | none ↦ record s { returned = r.0 }
        | some storage ↦
            drain_loop n (record s { returned = r.0; recycled = s.recycled ++ storage ∷ [] })
      ]

  -- The worker's second loop, `for remaining in (0..requested).rev()`: a recycled block, or the
  -- new block `fresh`, for each request; at a full queue the rest is requested again.
  pub send_loop : B → ℕ → Storage → Storage
  send_loop fresh zero s = s
  send_loop fresh (suc remaining) s =
      let (recycled, last) = pop_last s.recycled in
      let r = try_send R s.refills (unwrap_or last fresh) in
      elim r.1 [
        | ok _ ↦ send_loop fresh remaining (record s { refills = r.0; recycled = recycled })
        | err full ↦ record s {
          refills = r.0;
          recycled = recycled ++ full ∷ [];
          requests = s.requests + (remaining + 1);
        }
      ]

  pub refill_loop_storage : B → Storage → Storage
  refill_loop_storage fresh s =
      let drained = drain_loop (available_items R s.returned) s in
      send_loop fresh drained.requests (record drained { requests = 0 })

  -- `LoopStoragePool::new`, with the two new queues.
  pub new : B → Queue R → Queue R → Storage
  new fresh refills returned = record {
    free = replicate default_audio_blocks fresh;
    capacity = default_audio_blocks;
    refills = refills;
    returned = returned;
    requests = 0;
    recycled = [];
  }
