-- ===== src/Engine/Runtime/Pcm.antt =====
-- src/native_dsp_graph.rs: the callback's side of a transfer, `ImportLoop`, `RequestLoopExport` and
-- `advance_export`, and `Shutdown`, which ends an export.
use freewheeling_plus.Prelude.{
  ℕ, zero, suc, ◌+◌, ◌-◌, ◌/◌, ◌%◌, ◌^◌, max, min, Bool, true, false, not, ◌&&◌, ◌||◌, Option, none,
  some, List, ◌==◌, ltb, if◌then◌else◌, length, get_elem?, set,
}
use freewheeling_plus.Prelude.Options.{◌>>=◌, keep_if}
use freewheeling_plus.Prelude.Floats.{Float32}
use freewheeling_plus.Engine.Command.{PcmTransferHandle, LoopMode, empty, recording, playing}
use freewheeling_plus.Engine.Transfer.{
  StereoTransfer, TransferSlot, TransferPool, TransferState, queued, callback, exported, slot, put,
  invalid_handle, transfer_busy,
}
use freewheeling_plus.Engine.Blocks.{BlockPool}
use freewheeling_plus.Engine.Loop.{LoopSlot, sample_at}
use freewheeling_plus.Engine.Mixer.{call, shutdown_synth}
use freewheeling_plus.Engine.Runtime.{
  Engine, ExportJob, on_mixer, send_status, put_loop, is_recording, is_overdubbing, transfer_error,
  loop_imported, loop_exported, shutdown_complete,
}
use freewheeling_plus.Engine.Runtime.Recording.{stop_recording}
use freewheeling_plus.Engine.Runtime.Loops.{non_negative}

abbrev pub export_copy_frames_per_callback : ℕ
export_copy_frames_per_callback = 4096

unfoldable pub is_queued : TransferState → Bool
is_queued queued = true
is_queued _ = false

-- An imported loop plays, unless it is to be overdubbed or muted.
unfoldable pub import_mode : LoopMode → LoopMode
import_mode empty = playing
import_mode recording = playing
import_mode mode = mode

module _ {F : Type 0} where
  -- `transfers.slot(handle)` and the store into its state, if there is one.
  unfoldable pub store_state : TransferPool F → PcmTransferHandle → TransferState → TransferPool F
  store_state pool handle state = elim (slot pool handle) [
    | none ↦ pool
    | some t ↦ put pool handle (record t { state = state })
  ]

  unfoldable pub queued_slot : TransferPool F → PcmTransferHandle → Option (TransferSlot F)
  queued_slot pool handle = keep_if (λ t. is_queued t.state) (slot pool handle)

  -- `copy_range_to` for `n` frames from `cursor` on, into vectors that have those frames.
  unfoldable pub copy_range :
      (n cursor : ℕ) → LoopSlot F → StereoTransfer F → Option (StereoTransfer F)
  copy_range zero cursor s pcm = some pcm
  copy_range (suc n) cursor s pcm = do
    sample ← sample_at s cursor
    written ←
        (if ltb cursor (length pcm.left) && ltb cursor (length pcm.right)
          then some (record pcm {
            left = set pcm.left cursor sample.0;
            right = set pcm.right cursor sample.1;
          })
          else none)
    copy_range n (suc cursor) s written

  unfoldable pub can_export : LoopSlot F → Bool
  can_export s = ltb 0 s.len && not (is_recording s.mode || is_overdubbing s.mode)

  module _ {P : BlockPool F} where
    unfoldable pub fail_transfer :
        Engine P → (target : ℕ) → PcmTransferHandle → (busy : Bool) → Engine P
    fail_transfer e target handle busy =
        send_status e
          (transfer_error target handle (if busy then transfer_busy else invalid_handle))

    -- A refused transfer goes back to the control threads.
    unfoldable pub give_back :
        Engine P → (target : ℕ) → PcmTransferHandle → (busy : Bool) → Engine P
    give_back e target handle busy =
        fail_transfer (record e { transfers = store_state e.transfers handle exported }) target
          handle busy

    unfoldable pub start_export :
        Engine P → (target : ℕ) → PcmTransferHandle → LoopSlot F → TransferSlot F → Engine P
    start_export e target handle s t = record e {
      transfers =
          put e.transfers handle
            (record t { state = callback; pcm = record t.pcm { len = s.len } });
      export_job = some (record {
        slot = target;
        handle = handle;
        cursor = 0;
        metadata = record {
          frames = s.len % 2 ^ 32;
          position = s.position % 2 ^ 32;
          mode = s.mode;
          gain = s.gain;
          pulse_frames = e.clock.pulse_frames;
          beats =
              if e.clock.pulse_frames == 0
              then 0
              else max (s.len % 2 ^ 32 / e.clock.pulse_frames) 1;
        };
      });
    }

    unfoldable pub request_loop_export : Engine P → (target : ℕ) → PcmTransferHandle → Engine P
    request_loop_export e target handle = elim e.export_job [
      | some job ↦ give_back e target handle true
      | none ↦ elim (keep_if can_export (get_elem? e.loops target)) [
        | none ↦ give_back e target handle false
        | some s ↦ elim (queued_slot e.transfers handle) [
          | none ↦ fail_transfer e target handle false
          | some t ↦ start_export e target handle s t
        ]
      ]
    ]

    -- The engine after a part of the export was copied up to `end`.
    unfoldable pub exported_to :
        Engine P → ExportJob F → (end : ℕ) → TransferSlot F → StereoTransfer F → Engine P
    exported_to e job end t pcm =
        if end == job.metadata.frames
        then send_status
            (record e {
              export_job = none;
              transfers = put e.transfers job.handle (record t { state = exported; pcm = pcm });
            })
            (loop_exported job.slot job.handle job.metadata)
        else record e {
          export_job = some (record job { cursor = end });
          transfers = put e.transfers job.handle (record t { pcm = pcm });
        }

    unfoldable pub advance_export : Engine P → Option (Engine P)
    advance_export e = elim e.export_job [
      | none ↦ some e
      | some job ↦ (do
        let end = min (job.cursor + export_copy_frames_per_callback) job.metadata.frames
        s ← get_elem? e.loops job.slot
        t ← slot e.transfers job.handle
        pcm ← copy_range (end - job.cursor) job.cursor s t.pcm
        some (exported_to e job end t pcm))
    ]

    -- The calls of `advance_export` in the next `n` callbacks, with no command between them.
    unfoldable pub advance_exports : ℕ → Engine P → Option (Engine P)
    advance_exports zero e = some e
    advance_exports (suc n) e = do advanced ← advance_export e; advance_exports n advanced

module _ (f : Float32) (P : BlockPool f.F) where
  open f use {F, of_ℕ}
  open P use {Pool, release_blocks}

  unfoldable pub imported_slot :
      List (StereoTransfer F) → StereoTransfer F → ℕ → LoopMode → F → LoopSlot F → LoopSlot F
  imported_slot blocks pcm position mode gain s = record s {
    blocks = blocks;
    left = pcm.left;
    right = pcm.right;
    len = pcm.len;
    data_offset = 0;
    position = if pcm.len == 0 then 0 else position % pcm.len;
    mode = if pcm.len == 0 then empty else import_mode mode;
    gain = non_negative f P gain;
    trigger_gain = of_ℕ 1;
    gain_delta = of_ℕ 1;
    pulse_synced = false;
    capture_alignment_frames = 0;
    boundary_fade_position = none;
  }

  -- The vectors are swapped with those of the loop.
  unfoldable pub import_into :
      Engine P → ℕ → PcmTransferHandle → ℕ → LoopMode → F → LoopSlot F → TransferSlot F → Engine P
  import_into e target handle position mode gain s t =
      let released = release_blocks e.loop_storage s.blocks in
      send_status
        (record (put_loop e target (imported_slot released.1 t.pcm position mode gain s)) {
          loop_storage = released.0;
          transfers = put e.transfers handle (record t {
            state = exported;
            pcm = record { left = s.left; right = s.right; len = s.len };
          });
        })
        (loop_imported target handle)

  unfoldable pub import_loop : Engine P → ℕ → PcmTransferHandle → ℕ → LoopMode → F → Engine P
  import_loop e target handle position mode gain = elim (get_elem? e.loops target) [
    | none ↦ give_back e target handle false
    | some s ↦ elim (queued_slot e.transfers handle) [
      | none ↦ fail_transfer e target handle false
      | some t ↦ import_into e target handle position mode gain s t
    ]
  ]

  -- `Shutdown` ends a running export.
  unfoldable pub end_export : Engine P → Engine P
  end_export e = elim e.export_job [
    | none ↦ e
    | some job ↦ give_back (record e { export_job = none }) job.slot job.handle true
  ]

  unfoldable pub shutdown : Engine P → Option (Engine P)
  shutdown e = do
    stopped ← stop_recording f P (record e { running = false }) false
    let quiet = on_mixer (end_export stopped) (λ m. call f m shutdown_synth)
    some (send_status quiet shutdown_complete)
