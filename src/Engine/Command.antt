-- ===== src/Engine/Command.antt =====
-- src/native_dsp_graph.rs: the commands that the control threads queue for the engine.
-- `F` is the type `f32`.
use freewheeling_plus.Prelude.{ℕ, Bool}
use freewheeling_plus.Prelude.Int.{ℤ}

pub record PcmTransferHandle : Type 0 where
  pub index : ℕ
  pub generation : ℕ

pub data LoopMode : Type 0 where
  empty recording overdubbing playing muted : LoopMode

pub data RuntimeCommand (F : Type 0) : Type 0 where
  record_loop : (slot presslen_ms : ℕ) → RuntimeCommand F
  set_sample_rate : (sample_rate : ℕ) → RuntimeCommand F
  overdub : (slot : ℕ) (feedback gain : F) → RuntimeCommand F
  stop_record : RuntimeCommand F
  trigger : (slot : ℕ) (gain : F) → RuntimeCommand F
  set_trigger_gain : (slot : ℕ) (gain : F) → RuntimeCommand F
  set_loop_gain : (slot : ℕ) (gain : F) → RuntimeCommand F
  adjust_loop_gain : (slot : ℕ) (factor : F) → RuntimeCommand F
  adjust_loop_gain_delta : (slot : ℕ) (amount : F) → RuntimeCommand F
  reset_loop_gain_deltas : RuntimeCommand F
  move_loop : (source target : ℕ) → RuntimeCommand F
  mute : (slot : ℕ) (muted : Bool) → RuntimeCommand F
  erase : (slot : ℕ) → RuntimeCommand F
  set_input_monitor : F → RuntimeCommand F
  adjust_input_monitor : F → RuntimeCommand F
  set_input_volume : (input : ℕ) (volume fader_volume : F) → RuntimeCommand F
  adjust_input_volume : (input : ℕ) (amount : F) → RuntimeCommand F
  toggle_input_record : (input : ℕ) → RuntimeCommand F
  set_master_gain : F → RuntimeCommand F
  adjust_master_gain : F → RuntimeCommand F
  set_pulse : (frames : ℕ) → RuntimeCommand F
  set_pulse_subdivide : (beats : ℕ) → RuntimeCommand F
  set_recording_alignment_frames : (frames : ℕ) → RuntimeCommand F
  calibrate_latency : RuntimeCommand F
  set_midi_sync_transmit : Bool → RuntimeCommand F
  set_sync_speed : ℤ → RuntimeCommand F
  set_sync_type : Bool → RuntimeCommand F
  set_pulse_from_loop : (slot : ℕ) → RuntimeCommand F
  tap_pulse : (new_len : Bool) → RuntimeCommand F
  clear_pulse : RuntimeCommand F
  delete_pulse : RuntimeCommand F
  set_metronome : (enabled : Bool) (gain : F) → RuntimeCommand F
  synth_note : (note velocity : ℕ) → RuntimeCommand F
  synth_off : RuntimeCommand F
  set_synth_enabled : Bool → RuntimeCommand F
  set_synth_channel : ℕ → RuntimeCommand F
  set_synth_stereo : Bool → RuntimeCommand F
  synth_controller : (channel control value : ℕ) → RuntimeCommand F
  synth_pitch_bend : (channel value : ℕ) → RuntimeCommand F
  synth_patch : (channel : ℕ) (soundfont_id bank program : ℤ) → RuntimeCommand F
  synth_tuning : (cents : F) → RuntimeCommand F
  import_loop :
      (slot : ℕ) (handle : PcmTransferHandle) (position : ℕ) (mode : LoopMode) (gain : F)
      → RuntimeCommand F
  request_loop_export : (slot : ℕ) (replacement : PcmTransferHandle) → RuntimeCommand F
  request_snapshot : RuntimeCommand F
  shutdown : RuntimeCommand F
