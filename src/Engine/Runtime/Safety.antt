-- ===== src/Engine/Runtime/Safety.antt =====
-- src/native_dsp_graph.rs: no command brings a well-formed engine to a panic.
use freewheeling_plus.Prelude.{
  ℕ, ◌*◌, ◌≤◌, ◌≡◌, refl, ◌∙◌, Bool, true, false, ◌&&◌, ◌||◌, some, arith, Bool-cases, inl, inr,
}
use freewheeling_plus.Prelude.{length, get_elem?, leb}
use freewheeling_plus.Prelude.Int.{ℤ}
use freewheeling_plus.Prelude.Words.{u32_max}
use freewheeling_plus.Prelude.Floats.{Float32}
use freewheeling_plus.Engine.Command.{RuntimeCommand}
use freewheeling_plus.Engine.Blocks.{BlockPool}
use freewheeling_plus.Engine.Pulse.{PulseClock}
use freewheeling_plus.Engine.Pulse.Commands.{
  set_pulse, set_pulse_subdivide, set_sample_rate, set_midi_sync_transmit, set_sync_speed,
  set_sync_type, tap_pulse, tap_running, tap_armed, tune, reanchor, refresh_sync, clear_pulse,
}
use freewheeling_plus.Engine.Loop.{LoopSlot}
use freewheeling_plus.Engine.Runtime.Shown.{snapshot-IsEngine}
use freewheeling_plus.Engine.Runtime.{Engine, reject}
use freewheeling_plus.Engine.Runtime.Apply.{
  is_guarded, starts_recording, on_clock, set_alignment, run_command, apply_command,
}
use freewheeling_plus.Engine.Runtime.Valid.{IsEngine, on_mixer-IsEngine}
use freewheeling_plus.Engine.Runtime.Request.{request_stop_recording-IsEngine}
use freewheeling_plus.Engine.Runtime.Start.{record_loop-IsEngine}
use freewheeling_plus.Engine.Runtime.Change.{
  renewed-IsEngine, reject-IsEngine, trigger-IsEngine, change_filled-IsEngine,
  set_trigger_gain-IsGentle, set_loop_gain-IsGentle, adjust_loop_gain-IsGentle,
  adjust_loop_gain_delta-IsGentle, mute-IsGentle,
}
use freewheeling_plus.Engine.Runtime.Swap.{
  overdub-IsEngine, reset_loop_gain_deltas-IsEngine, move_loop-IsEngine,
}
use freewheeling_plus.Engine.Runtime.Clear.{
  erase-IsEngine, delete_pulse_loops-IsEngine, select_pulse-IsEngine,
}
use freewheeling_plus.Engine.Runtime.Moves.{request_loop_export-IsEngine}
use freewheeling_plus.Engine.Runtime.Import.{import_loop-IsEngine, shutdown-IsEngine}

-- The phase of the pulse after a command on it.
set_pulse-fits :
    (c : PulseClock) (frames : ℕ)
    → c.pulse_position ≤ u32_max
    → (set_pulse c frames).pulse_position ≤ u32_max
unfolding set_pulse
set_pulse-fits c frames h = omega (arith, h)

subdivide-fits :
    (c : PulseClock) (beats : ℕ)
    → c.pulse_position ≤ u32_max
    → (set_pulse_subdivide c beats).pulse_position ≤ u32_max
unfolding set_pulse_subdivide
subdivide-fits c beats h = h

set_midi_sync_transmit-fits :
    (c : PulseClock) (enabled : Bool)
    → c.pulse_position ≤ u32_max
    → (set_midi_sync_transmit c enabled).pulse_position ≤ u32_max
unfolding set_midi_sync_transmit
set_midi_sync_transmit-fits c enabled h = h

set_sync_speed-fits :
    (c : PulseClock) (speed : ℤ)
    → c.pulse_position ≤ u32_max
    → (set_sync_speed c speed).pulse_position ≤ u32_max
unfolding set_sync_speed
set_sync_speed-fits c speed h = h

set_sync_type-fits :
    (c : PulseClock) (kind : Bool)
    → c.pulse_position ≤ u32_max
    → (set_sync_type c kind).pulse_position ≤ u32_max
unfolding set_sync_type
set_sync_type-fits c kind h = h

set_sample_rate-fits :
    (c : PulseClock) (rate : ℕ)
    → c.pulse_position ≤ u32_max
    → (set_sample_rate c rate).pulse_position ≤ u32_max
unfolding set_sample_rate
set_sample_rate-fits c rate h = ground (arith, h)

clear_pulse-fits :
    (c : PulseClock) → c.pulse_position ≤ u32_max → (clear_pulse c).pulse_position ≤ u32_max
unfolding clear_pulse
clear_pulse-fits c h = ground (arith, h)

reanchor-zero : (c : PulseClock) (next : Bool) → (reanchor c next).pulse_position ≡ 0
unfolding reanchor
reanchor-zero c true = refl
reanchor-zero c false = refl

tap_running-zero :
    (f : Float32) (c : PulseClock) (new_len : Bool) → (tap_running f c new_len).pulse_position ≡ 0
unfolding tap_running
tap_running-zero f c new_len =
    reanchor-zero (tune f c new_len) (leb c.pulse_frames (c.pulse_position * 2))

tap_armed-zero : (c : PulseClock) (new_len : Bool) → (tap_armed c new_len).pulse_position ≡ 0
unfolding tap_armed
tap_armed-zero c new_len = refl

tap_pulse-fits :
    (f : Float32) (c : PulseClock) (new_len : Bool)
    → c.pulse_position ≤ u32_max
    → (tap_pulse f c new_len).pulse_position ≤ u32_max
unfolding tap_pulse
tap_pulse-fits f c new_len h =
    ground (
      arith,
      h,
      tap_running-zero f (refresh_sync c) new_len,
      tap_armed-zero (refresh_sync c) new_len,
    )

module _ {F : Type 0} {P : BlockPool F} where
  -- What the engine needs of its storage for a command: blocks for a recording, and room to give
  -- back those of the loop that an import replaces.
  unfoldable pub IsServed : Engine P → RuntimeCommand F → Type 0
  IsServed e (RuntimeCommand.record_loop slot presslen) = 2 ≤ P.ready e.loop_storage
  IsServed e (RuntimeCommand.import_loop slot handle position mode gain) =
      (s : LoopSlot F) → get_elem? e.loops slot ≡ some s → length s.blocks ≤ P.room e.loop_storage
  IsServed e _ = Unit

  on_clock-IsEngine :
      (e : Engine P) (change : PulseClock → PulseClock)
      → IsEngine e
      → (change e.clock).pulse_position ≤ u32_max
      → IsEngine (on_clock e change)
  unfolding on_clock
  on_clock-IsEngine e change v h = renewed-IsEngine e (change e.clock) e.recorder v v.recorded h

  set_alignment-IsEngine :
      (e : Engine P) (frames : ℕ) → IsEngine e → IsEngine (set_alignment e frames)
  unfolding set_alignment
  set_alignment-IsEngine e frames v = renewed-IsEngine e e.clock _ v v.recorded v.phase_fits

  calibrating-IsEngine : (e : Engine P) → IsEngine e → IsEngine (record e { calibrating = true })
  calibrating-IsEngine e v = record {
    pool_valid = v.pool_valid;
    loops_valid = v.loops_valid;
    recorded = v.recorded;
    phase_fits = v.phase_fits;
    history_level = v.history_level;
    history_fits = v.history_fits;
    transfers_valid = v.transfers_valid;
  }

module _ (f : Float32) (P : BlockPool f.F) where
  open f use {F}

  run_command-IsEngine :
      (e : Engine P) (c : RuntimeCommand F)
      → IsEngine e
      → IsServed e c
      → (t : Engine P) × (run_command f P e c ≡ some t) × IsEngine t
  unfolding run_command IsServed
  run_command-IsEngine e (RuntimeCommand.record_loop slot presslen) v h =
      let t = record_loop-IsEngine f P e _ slot v h in (t.0, t.1, t.2)
  run_command-IsEngine e (RuntimeCommand.overdub slot feedback gain) v h =
      overdub-IsEngine f P e _ slot feedback gain v
  run_command-IsEngine e RuntimeCommand.stop_record v h =
      request_stop_recording-IsEngine f P e true v
  run_command-IsEngine e (RuntimeCommand.trigger slot gain) v h =
      (_, refl, trigger-IsEngine f P e _ slot gain v)
  run_command-IsEngine e (RuntimeCommand.set_trigger_gain slot gain) v h =
      (_, refl, change_filled-IsEngine f P e _ slot _ v (set_trigger_gain-IsGentle f P gain))
  run_command-IsEngine e (RuntimeCommand.set_loop_gain slot gain) v h =
      (_, refl, change_filled-IsEngine f P e _ slot _ v (set_loop_gain-IsGentle f P gain))
  run_command-IsEngine e (RuntimeCommand.adjust_loop_gain slot factor) v h =
      (_, refl, change_filled-IsEngine f P e _ slot _ v (adjust_loop_gain-IsGentle f P factor))
  run_command-IsEngine e (RuntimeCommand.adjust_loop_gain_delta slot amount) v h = (
    _,
    refl,
    change_filled-IsEngine f P e _ slot _ v (adjust_loop_gain_delta-IsGentle f P amount),
  )
  run_command-IsEngine e RuntimeCommand.reset_loop_gain_deltas v h =
      (_, refl, reset_loop_gain_deltas-IsEngine f P e v)
  run_command-IsEngine e (RuntimeCommand.move_loop source target) v h =
      (_, refl, move_loop-IsEngine f P e _ source target v)
  run_command-IsEngine e (RuntimeCommand.mute slot silent) v h =
      (_, refl, change_filled-IsEngine f P e _ slot _ v (mute-IsGentle f P silent))
  run_command-IsEngine e (RuntimeCommand.erase slot) v h = (_, refl, erase-IsEngine f P e _ slot v)
  run_command-IsEngine e (RuntimeCommand.set_input_monitor gain) v h =
      (_, refl, on_mixer-IsEngine e _ v)
  run_command-IsEngine e (RuntimeCommand.adjust_input_monitor gain) v h =
      (_, refl, on_mixer-IsEngine e _ v)
  run_command-IsEngine e (RuntimeCommand.set_input_volume input volume fader) v h =
      (_, refl, on_mixer-IsEngine e _ v)
  run_command-IsEngine e (RuntimeCommand.adjust_input_volume input amount) v h =
      (_, refl, on_mixer-IsEngine e _ v)
  run_command-IsEngine e (RuntimeCommand.toggle_input_record input) v h =
      (_, refl, on_mixer-IsEngine e _ v)
  run_command-IsEngine e (RuntimeCommand.set_master_gain gain) v h =
      (_, refl, on_mixer-IsEngine e _ v)
  run_command-IsEngine e (RuntimeCommand.adjust_master_gain gain) v h =
      (_, refl, on_mixer-IsEngine e _ v)
  run_command-IsEngine e (RuntimeCommand.set_pulse frames) v h =
      (_, refl, on_clock-IsEngine e _ v (set_pulse-fits e.clock frames v.phase_fits))
  run_command-IsEngine e (RuntimeCommand.set_pulse_subdivide beats) v h =
      (_, refl, on_clock-IsEngine e _ v (subdivide-fits e.clock beats v.phase_fits))
  run_command-IsEngine e (RuntimeCommand.set_recording_alignment_frames frames) v h =
      (_, refl, set_alignment-IsEngine e frames v)
  run_command-IsEngine e RuntimeCommand.calibrate_latency v h = (_, refl, calibrating-IsEngine e v)
  run_command-IsEngine e (RuntimeCommand.set_sample_rate rate) v h =
      (_, refl, on_clock-IsEngine e _ v (set_sample_rate-fits e.clock rate v.phase_fits))
  run_command-IsEngine e (RuntimeCommand.set_midi_sync_transmit enabled) v h =
      (_, refl, on_clock-IsEngine e _ v (set_midi_sync_transmit-fits e.clock enabled v.phase_fits))
  run_command-IsEngine e (RuntimeCommand.set_sync_speed speed) v h =
      (_, refl, on_clock-IsEngine e _ v (set_sync_speed-fits e.clock speed v.phase_fits))
  run_command-IsEngine e (RuntimeCommand.set_sync_type kind) v h =
      (_, refl, on_clock-IsEngine e _ v (set_sync_type-fits e.clock kind v.phase_fits))
  run_command-IsEngine e (RuntimeCommand.set_pulse_from_loop slot) v h =
      (_, refl, select_pulse-IsEngine f P e _ slot v)
  run_command-IsEngine e (RuntimeCommand.tap_pulse new_len) v h =
      (_, refl, on_clock-IsEngine e _ v (tap_pulse-fits f e.clock new_len v.phase_fits))
  run_command-IsEngine e RuntimeCommand.clear_pulse v h =
      (_, refl, on_clock-IsEngine e _ v (clear_pulse-fits e.clock v.phase_fits))
  run_command-IsEngine e RuntimeCommand.delete_pulse v h =
      (_, refl, delete_pulse_loops-IsEngine f P e v)
  run_command-IsEngine e (RuntimeCommand.set_metronome enabled gain) v h =
      (_, refl, on_mixer-IsEngine e _ v)
  run_command-IsEngine e (RuntimeCommand.synth_note note velocity) v h =
      (_, refl, on_mixer-IsEngine e _ v)
  run_command-IsEngine e RuntimeCommand.synth_off v h = (_, refl, on_mixer-IsEngine e _ v)
  run_command-IsEngine e (RuntimeCommand.set_synth_enabled enabled) v h =
      (_, refl, on_mixer-IsEngine e _ v)
  run_command-IsEngine e (RuntimeCommand.set_synth_channel channel) v h =
      (_, refl, on_mixer-IsEngine e _ v)
  run_command-IsEngine e (RuntimeCommand.set_synth_stereo stereo) v h =
      (_, refl, on_mixer-IsEngine e _ v)
  run_command-IsEngine e (RuntimeCommand.synth_controller channel control value) v h =
      (_, refl, on_mixer-IsEngine e _ v)
  run_command-IsEngine e (RuntimeCommand.synth_pitch_bend channel value) v h =
      (_, refl, on_mixer-IsEngine e _ v)
  run_command-IsEngine e (RuntimeCommand.synth_patch channel soundfont bank program) v h =
      (_, refl, on_mixer-IsEngine e _ v)
  run_command-IsEngine e (RuntimeCommand.synth_tuning cents) v h =
      (_, refl, on_mixer-IsEngine e _ v)
  run_command-IsEngine e RuntimeCommand.request_snapshot v h = snapshot-IsEngine f e v
  run_command-IsEngine e (RuntimeCommand.import_loop slot handle position mode gain) v h =
      (_, refl, import_loop-IsEngine f P e slot handle position mode gain v h)
  run_command-IsEngine e (RuntimeCommand.request_loop_export slot handle) v h =
      (_, refl, request_loop_export-IsEngine e slot handle v)
  run_command-IsEngine e RuntimeCommand.shutdown v h = shutdown-IsEngine f P e v

  pub apply_run :
      (e : Engine P) (c : RuntimeCommand F)
      → (is_guarded e.export_job c || (e.calibrating && starts_recording c)) ≡ false
      → apply_command f P e c ≡ run_command f P e c
  unfolding apply_command
  apply_run e c h = rw (h, apply_command) refl

  pub apply_refused :
      (e : Engine P) (c : RuntimeCommand F)
      → (is_guarded e.export_job c || (e.calibrating && starts_recording c)) ≡ true
      → apply_command f P e c ≡ some (reject e c)
  unfolding apply_command
  apply_refused e c h = rw (h, apply_command) refl

  pub apply_command-IsEngine :
      (e : Engine P) (c : RuntimeCommand F)
      → IsEngine e
      → IsServed e c
      → (t : Engine P) × (apply_command f P e c ≡ some t) × IsEngine t
  apply_command-IsEngine e c v h =
      elim (Bool-cases (is_guarded e.export_job c || (e.calibrating && starts_recording c))) [
        | inl t ↦ (reject e c, apply_refused e c t, reject-IsEngine e c v)
        | inr t ↦ let r = run_command-IsEngine e c v h in (r.0, apply_run e c t ∙ r.1, r.2)
      ]
