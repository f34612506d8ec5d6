-- ===== src/Engine/Runtime.antt =====
-- src/native_dsp_graph.rs: `RuntimeAudioProcessor`, the engine that the audio callback runs: its loops,
-- the recording in progress, the pulse clock, the transfers and the export. An operation that
-- returns an `Option` is `none` where Rust panics. Left out are the fields of the limiter, of the
-- published snapshots and of the streamed output. `sent` lists the statuses that the operations on loops try to send,
-- newest first; those of the pulse clock stand in the clock.
pub mod Recording
pub mod Loops
pub mod Pcm
mod Snapshot
mod Shown
pub mod Apply
mod Grow
mod Fuel
mod Room
mod Take
mod Valid
mod Open
mod Stop
mod Follow
mod Request
mod Prefill
mod Start
mod Change
mod Swap
mod Clear
mod Moves
mod Import
mod Safety
mod Ended
mod Examples
mod Tests
mod Copy
mod Export
mod Exports
mod Keep
mod Spare
mod Guard
mod Protect
mod Supply
use freewheeling_plus.Prelude.{ℕ, ◌∷◌, Bool, true, false, Option, none, some, List, get_elem?, set}
use freewheeling_plus.Prelude.Floats.{Float32}
use freewheeling_plus.Engine.Command.{
  RuntimeCommand, PcmTransferHandle, LoopMode, recording, overdubbing,
}
use freewheeling_plus.Engine.Transfer.{TransferPool, PcmTransferError}
use freewheeling_plus.Engine.Blocks.{BlockPool}
use freewheeling_plus.Engine.Pulse.{PulseClock}
use freewheeling_plus.Engine.Loop.{LoopSlot}
use freewheeling_plus.Engine.Mixer.{Mixer}

-- The fields `recording` and `recording_*`.
pub record Recorder : Type 0 where
  pub recording : Option ℕ
  pub waiting_start : Bool
  pub waiting_stop : Bool
  pub tail_remaining : Option ℕ
  pub started_late : Bool
  pub start_phase : ℕ
  pub elapsed_frames : ℕ
  pub stop_target_len : Option ℕ
  pub skip_frames : ℕ
  pub end_justify : Bool
  pub pulse_beats : ℕ
  pub pulse_extension_applied : Bool
  pub alignment_frames : ℕ

-- The fields `input_history_*`: a ring of the last input frames.
pub record InputHistory (F : Type 0) : Type 0 where
  pub left : List F
  pub right : List F
  pub position : ℕ
  pub len : ℕ

pub record LoopTransferMetadata (F : Type 0) : Type 0 where
  pub frames : ℕ
  pub position : ℕ
  pub mode : LoopMode
  pub gain : F
  pub pulse_frames : ℕ
  pub beats : ℕ

pub record ExportJob (F : Type 0) : Type 0 where
  pub slot : ℕ
  pub handle : PcmTransferHandle
  pub cursor : ℕ
  pub metadata : LoopTransferMetadata F

pub record RuntimeLoopSnapshot (F : Type 0) : Type 0 where
  pub mode : LoopMode
  pub frames : ℕ
  pub position : ℕ
  pub gain : F
  pub trigger_gain : F
  pub gain_delta : F
  pub waveform : List F

-- `Snapshot` carries the loops of the snapshot that it announces.
pub data RuntimeStatus (F : Type 0) : Type 0 where
  command_rejected : RuntimeCommand F → RuntimeStatus F
  loop_completed : (slot : ℕ) → RuntimeStatus F
  loop_imported : (slot : ℕ) (handle : PcmTransferHandle) → RuntimeStatus F
  loop_exported :
      (slot : ℕ) (handle : PcmTransferHandle) (metadata : LoopTransferMetadata F) → RuntimeStatus F
  transfer_error :
      (slot : ℕ) (handle : PcmTransferHandle) (error : PcmTransferError) → RuntimeStatus F
  snapshot_published : (loops : List (RuntimeLoopSnapshot F)) → RuntimeStatus F
  shutdown_complete : RuntimeStatus F

pub record Engine {F : Type 0} (P : BlockPool F) : Type 0 where
  pub loops : List (LoopSlot F)
  pub loop_storage : P.Pool
  pub clock : PulseClock
  pub recorder : Recorder
  pub mixer : Mixer F
  pub history : InputHistory F
  -- whether `latency_calibration` is set
  pub calibrating : Bool
  pub export_job : Option (ExportJob F)
  pub transfers : TransferPool F
  pub running : Bool
  pub sent : List (RuntimeStatus F)

unfoldable pub is_recording : LoopMode → Bool
is_recording recording = true
is_recording _ = false

unfoldable pub is_overdubbing : LoopMode → Bool
is_overdubbing overdubbing = true
is_overdubbing _ = false

module _ {F : Type 0} {P : BlockPool F} where
  unfoldable pub on_mixer : Engine P → (Mixer F → Mixer F) → Engine P
  on_mixer e change = record e { mixer = change e.mixer }

  unfoldable pub send_status : Engine P → RuntimeStatus F → Engine P
  send_status e status = record e { sent = status ∷ e.sent }

  unfoldable pub reject : Engine P → RuntimeCommand F → Engine P
  reject e command = send_status e (command_rejected command)

  -- The engine after a change of one loop.
  unfoldable pub put_loop : Engine P → ℕ → LoopSlot F → Engine P
  put_loop e index s = record e { loops = set e.loops index s }
