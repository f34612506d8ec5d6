-- ===== src/Engine/Transfer.antt =====
-- src/native_dsp_graph.rs: `TransferPool`, the slots through which PCM passes between the control
-- threads and the audio callback, and the operations of the control endpoint. Each slot has a state
-- and a generation, a `u32` that wraps; a handle names a slot with its generation. A sample list
-- stands for a vector, and `len` for the frames of it that are in use. A compare-exchange and a load
-- of the same call are one step, and the peaks that an import computes for the display are left out.
pub mod Slots
mod Handles
mod Valid
mod Safety
mod Tests
use freewheeling_plus.Prelude.{
  ℕ, zero, suc, ◌+◌, ◌-◌, ◌%◌, ◌^◌, Bool, true, false, not, ◌&&◌, ◌||◌, Option, none, some, List,
  [], ◌∷◌, ◌++◌, ◌==◌, ltb, leb, if◌then◌else◌, length, get_elem?, set, take, drop, replicate,
  Result, ok, err, ◌>>=◌, ok_or,
}
use freewheeling_plus.Prelude.Options.{keep_if}
use freewheeling_plus.Queue.{Queue, try_send}
use freewheeling_plus.Queue.Ring.{RingBuffer}
use freewheeling_plus.Engine.Command.{
  PcmTransferHandle, LoopMode, RuntimeCommand, import_loop, request_loop_export,
}

pub data TransferState : Type 0 where
  free control queued callback exported : TransferState

pub data PcmTransferError : Type 0 where
  pool_exhausted invalid_handle pcm_too_long channel_length_mismatch command_queue_full
        transfer_busy recording_storage_exhausted :
      PcmTransferError

pub is_free : TransferState → Bool
is_free free = true
is_free _ = false

pub is_control : TransferState → Bool
is_control control = true
is_control _ = false

pub is_exported : TransferState → Bool
is_exported exported = true
is_exported _ = false

pub next_generation : ℕ → ℕ
next_generation g = (g + 1) % 2 ^ 32

-- The index of a handle is a `u16`.
pub handle_of : ℕ → ℕ → PcmTransferHandle
handle_of index generation = record { index = index % 2 ^ 16; generation = generation }

pub record StereoTransfer (F : Type 0) : Type 0 where
  pub left : List F
  pub right : List F
  pub len : ℕ

pub record TransferSlot (F : Type 0) : Type 0 where
  pub state : TransferState
  pub generation : ℕ
  pub pcm : StereoTransfer F

pub record TransferPool (F : Type 0) : Type 0 where
  pub slots : List (TransferSlot F)
  pub capacity : ℕ

-- The control endpoint: the shared slots, and the queue of commands.
pub record Endpoint {F : Type 0} (R : RingBuffer (RuntimeCommand F)) : Type 0 where
  pub transfers : TransferPool F
  pub commands : Queue R

module _ {F : Type 0} where
  pub new : F → ℕ → ℕ → TransferPool F
  new silence count capacity = record {
    slots = replicate count (record {
      state = free;
      generation = 0;
      pcm = record {
        left = replicate capacity silence;
        right = replicate capacity silence;
        len = 0;
      };
    });
    capacity = capacity;
  }

  unfoldable pub slot : TransferPool F → PcmTransferHandle → Option (TransferSlot F)
  slot pool handle =
      keep_if (λ t. t.generation == handle.generation) (get_elem? pool.slots handle.index)

  -- The loop of `acquire`, at the slot with the given index.
  pub acquire_from : ℕ → List (TransferSlot F) → Option (List (TransferSlot F) × PcmTransferHandle)
  acquire_from index [] = none
  acquire_from index (t ∷ ts) =
      let rest = acquire_from (suc index) ts in
      let generation = next_generation t.generation in
      if is_free t.state
      then some
          (record t { state = control; generation = generation } ∷ ts, handle_of index generation)
      else elim rest [ none ↦ none | some r ↦ some (t ∷ r.0, r.1) ]

  pub acquire : TransferPool F → Result PcmTransferError (TransferPool F × PcmTransferHandle)
  acquire pool = elim (acquire_from 0 pool.slots) [
    | none ↦ err pool_exhausted
    | some r ↦ ok (record pool { slots = r.0 }, r.1)
  ]

  unfoldable pub put : TransferPool F → PcmTransferHandle → TransferSlot F → (TransferPool F)
  put pool handle t = record pool { slots = set pool.slots handle.index t }

  -- `copy_from_slice` into the start of a vector that is long enough.
  pub overwrite : List F → List F → List F
  overwrite pcm samples = samples ++ drop (length samples) pcm

  -- The end of `write_transfer` on the slot that it found; `none` is the panic of a slice that is out
  -- of range.
  pub write_slot :
      TransferPool F
      → PcmTransferHandle
      → List F
      → List F
      → TransferSlot F
      → Option (Result PcmTransferError (TransferPool F))
  write_slot pool handle left right t =
      if ltb (length t.pcm.left) (length left)
      then some (err pcm_too_long)
      else if ltb (length t.pcm.right) (length left)
      then none
      else some (
          ok (
            put pool handle (record t {
              pcm = record {
                left = overwrite t.pcm.left left;
                right = overwrite t.pcm.right right;
                len = length left;
              };
            })))

  pub write_transfer :
      TransferPool F
      → PcmTransferHandle
      → List F
      → List F
      → Option (Result PcmTransferError (TransferPool F))
  write_transfer pool handle left right =
      if not (length left == length right)
      then some (err channel_length_mismatch)
      else elim (keep_if (λ t. is_control t.state) (slot pool handle)) [
        | none ↦ some (err invalid_handle)
        | some t ↦ write_slot pool handle left right t
      ]

  -- Whether the slices `[..len]` of both vectors are in range.
  pub has_frames : TransferSlot F → Bool
  has_frames t = leb t.pcm.len (length t.pcm.left) && leb t.pcm.len (length t.pcm.right)

  -- The samples that `with_exported_pcm` lets its closure read; `none` is the panic of a slice.
  pub with_exported_pcm :
      TransferPool F → PcmTransferHandle → Option (Result PcmTransferError (List F × List F))
  with_exported_pcm pool handle = elim (keep_if (λ t. is_exported t.state) (slot pool handle)) [
    | none ↦ some (err invalid_handle)
    | some t ↦
        if has_frames t
        then some (ok (take t.pcm.len t.pcm.left, take t.pcm.len t.pcm.right))
        else none
  ]

  -- `Vec::resize` where the vector is shorter.
  pub grow : F → ℕ → List F → List F
  grow silence capacity pcm =
      if ltb (length pcm) capacity then pcm ++ replicate (capacity - length pcm) silence else pcm

  pub owned : TransferSlot F → Bool
  owned t = is_control t.state || is_exported t.state

  pub release_transfer :
      F → TransferPool F → PcmTransferHandle → Result PcmTransferError (TransferPool F)
  release_transfer silence pool handle =
      ok_or invalid_handle (keep_if owned (slot pool handle)) >>= (λ t. ok (
        put pool handle (record t {
          state = free;
          pcm = record {
            left = grow silence pool.capacity t.pcm.left;
            right = grow silence pool.capacity t.pcm.right;
            len = 0;
          };
        })))

  module _ (R : RingBuffer (RuntimeCommand F)) where
    -- The end of a call that sends a command: at a full queue the slot goes to `back`.
    pub sent_or :
        {A : Type 0}
        → Endpoint R
        → PcmTransferHandle
        → TransferSlot F
        → TransferState
        → A
        → Queue R × Result (RuntimeCommand F) (Unit {0})
        → Endpoint R × Result PcmTransferError A
    sent_or e handle t back a (commands, ok _) = (
      record {
        transfers = put e.transfers handle (record t { state = queued });
        commands = commands;
      },
      ok a,
    )
    sent_or e handle t back a (commands, err _) = (
      record {
        transfers = put e.transfers handle (record t { state = back });
        commands = commands;
      },
      err command_queue_full,
    )

    -- The slices that `scope.compute` reads may panic.
    pub try_import_loop :
        Endpoint R
        → ℕ
        → PcmTransferHandle
        → ℕ
        → LoopMode
        → F
        → Option (Endpoint R × Result PcmTransferError (Unit {0}))
    try_import_loop e target handle position mode gain =
        elim (keep_if owned (slot e.transfers handle)) [
          | none ↦ some (e, err invalid_handle)
          | some t ↦
              if has_frames t
              then some (
                  sent_or e handle t control tt
                    (try_send R e.commands (import_loop target handle position mode gain)))
              else none
        ]

    -- `none` is the panic of the `unwrap`.
    pub try_request_loop_export :
        Endpoint R → ℕ → Option (Endpoint R × Result PcmTransferError PcmTransferHandle)
    try_request_loop_export e target = elim (acquire e.transfers) [
      | err reason ↦ some (e, err reason)
      | ok acquired ↦ elim (slot acquired.0 acquired.1) [
        | none ↦ none
        | some t ↦ some (
            sent_or (record e { transfers = acquired.0 }) acquired.1 t free acquired.1
              (try_send R e.commands (request_loop_export target acquired.1)))
      ]
    ]
