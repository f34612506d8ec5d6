-- ===== src/Engine/Runtime/Apply.antt =====
-- src/native_dsp_graph.rs: `apply_command`, which the callback runs for each queued command.
use freewheeling_plus.Prelude.{
  ℕ, ◌==◌, Bool, true, false, ◌&&◌, ◌||◌, Option, none, some, List, [], ◌∷◌, min, if◌then◌else◌,
}
use freewheeling_plus.Prelude.Options.{◌>>=◌}
use freewheeling_plus.Prelude.Floats.{Float32}
use freewheeling_plus.Engine.Command.{RuntimeCommand}
use freewheeling_plus.Engine.Blocks.{BlockPool}
use freewheeling_plus.Engine.Mixer.{
  note_on, controller, pitch_bend, program_select, set_tuning, centred, set_input_volume,
  adjust_input_volume, toggle_input_record, call, silence, set_synth_enabled,
}
use freewheeling_plus.Engine.Pulse.{PulseClock}
use freewheeling_plus.Engine.Pulse.Commands.{
  set_pulse, set_pulse_subdivide, set_sample_rate, set_midi_sync_transmit, set_sync_speed,
  set_sync_type, tap_pulse, clear_pulse,
}
use freewheeling_plus.Engine.Runtime.{Engine, ExportJob, on_mixer, reject}
use freewheeling_plus.Engine.Runtime.Recording.{request_stop_recording}
use freewheeling_plus.Engine.Runtime.Loops.{
  record_loop, overdub, trigger, change_filled, set_trigger_gain, set_loop_gain, adjust_loop_gain,
  adjust_loop_gain_delta, mute, reset_loop_gain_deltas, move_loop, erase, delete_pulse_loops,
  select_pulse,
}
use freewheeling_plus.Engine.Runtime.Snapshot.{snapshot}
use freewheeling_plus.Engine.Runtime.Pcm.{import_loop, request_loop_export, shutdown}

-- `mutates_loop`.
unfoldable pub mutates_loop : {F : Type 0} → RuntimeCommand F → ℕ → Bool
mutates_loop (RuntimeCommand.record_loop target presslen) slot = presslen == 0 && target == slot
mutates_loop (RuntimeCommand.overdub target _ _) slot = target == slot
mutates_loop (RuntimeCommand.erase target) slot = target == slot
mutates_loop (RuntimeCommand.import_loop target _ _ _ _) slot = target == slot
mutates_loop (RuntimeCommand.set_trigger_gain target _) slot = target == slot
mutates_loop (RuntimeCommand.set_loop_gain target _) slot = target == slot
mutates_loop (RuntimeCommand.adjust_loop_gain target _) slot = target == slot
mutates_loop (RuntimeCommand.adjust_loop_gain_delta target _) slot = target == slot
mutates_loop (RuntimeCommand.move_loop source target) slot = source == slot || target == slot
mutates_loop _ slot = false

-- The commands that wait for the end of the latency calibration.
unfoldable pub starts_recording : {F : Type 0} → RuntimeCommand F → Bool
starts_recording (RuntimeCommand.record_loop _ _) = true
starts_recording (RuntimeCommand.overdub _ _ _) = true
starts_recording _ = false

unfoldable pub is_guarded : {F : Type 0} → Option (ExportJob F) → RuntimeCommand F → Bool
is_guarded none command = false
is_guarded (some job) command = mutates_loop command job.slot

unfoldable pub on_clock :
    {F : Type 0} {P : BlockPool F} → Engine P → (PulseClock → PulseClock) → Engine P
on_clock e change = record e { clock = change e.clock }

unfoldable pub set_alignment : {F : Type 0} {P : BlockPool F} → Engine P → ℕ → Engine P
set_alignment e frames = record e { recorder = record e.recorder { alignment_frames = frames } }

module _ (f : Float32) (P : BlockPool f.F) where
  open f use {F, of_ℕ, add, max as fmax}

  -- The `match` of `apply_command`, after its guards.
  unfoldable pub run_command : Engine P → RuntimeCommand F → Option (Engine P)
  run_command e (RuntimeCommand.record_loop slot presslen) =
      record_loop f P e (RuntimeCommand.record_loop slot presslen) slot
  run_command e (RuntimeCommand.overdub slot feedback gain) =
      overdub f P e (RuntimeCommand.overdub slot feedback gain) slot feedback gain
  run_command e RuntimeCommand.stop_record = request_stop_recording f P e true
  run_command e (RuntimeCommand.trigger slot gain) =
      some (trigger f P e (RuntimeCommand.trigger slot gain) slot gain)
  run_command e (RuntimeCommand.set_trigger_gain slot gain) = some (
      change_filled f P e (RuntimeCommand.set_trigger_gain slot gain) slot
        (set_trigger_gain f P gain))
  run_command e (RuntimeCommand.set_loop_gain slot gain) =
      some
        (change_filled f P e (RuntimeCommand.set_loop_gain slot gain) slot (set_loop_gain f P gain))
  run_command e (RuntimeCommand.adjust_loop_gain slot factor) = some (
      change_filled f P e (RuntimeCommand.adjust_loop_gain slot factor) slot
        (adjust_loop_gain f P factor))
  run_command e (RuntimeCommand.adjust_loop_gain_delta slot amount) = some (
      change_filled f P e (RuntimeCommand.adjust_loop_gain_delta slot amount) slot
        (adjust_loop_gain_delta f P amount))
  run_command e RuntimeCommand.reset_loop_gain_deltas = some (reset_loop_gain_deltas f P e)
  run_command e (RuntimeCommand.move_loop source target) =
      some (move_loop f P e (RuntimeCommand.move_loop source target) source target)
  run_command e (RuntimeCommand.mute slot muted) =
      some (change_filled f P e (RuntimeCommand.mute slot muted) slot (mute f P muted))
  run_command e (RuntimeCommand.erase slot) = some (erase f P e (RuntimeCommand.erase slot) slot)
  run_command e (RuntimeCommand.set_pulse frames) = some (on_clock e (λ c. set_pulse c frames))
  run_command e (RuntimeCommand.set_pulse_subdivide beats) =
      some (on_clock e (λ c. set_pulse_subdivide c beats))
  run_command e (RuntimeCommand.set_recording_alignment_frames frames) =
      some (set_alignment e frames)
  run_command e (RuntimeCommand.set_sample_rate rate) =
      some (on_clock e (λ c. set_sample_rate c rate))
  run_command e RuntimeCommand.calibrate_latency = some (record e { calibrating = true })
  run_command e (RuntimeCommand.set_midi_sync_transmit enabled) =
      some (on_clock e (λ c. set_midi_sync_transmit c enabled))
  run_command e (RuntimeCommand.set_sync_speed speed) =
      some (on_clock e (λ c. set_sync_speed c speed))
  run_command e (RuntimeCommand.set_sync_type kind) = some (on_clock e (λ c. set_sync_type c kind))
  run_command e (RuntimeCommand.set_pulse_from_loop slot) =
      some (select_pulse f P e (RuntimeCommand.set_pulse_from_loop slot) slot)
  run_command e (RuntimeCommand.tap_pulse new_len) = some (on_clock e (λ c. tap_pulse f c new_len))
  run_command e RuntimeCommand.clear_pulse = some (on_clock e clear_pulse)
  run_command e RuntimeCommand.delete_pulse = some (delete_pulse_loops f P e)
  run_command e (RuntimeCommand.import_loop slot handle position mode gain) =
      some (import_loop f P e slot handle position mode gain)
  run_command e (RuntimeCommand.request_loop_export slot replacement) =
      some (request_loop_export e slot replacement)
  run_command e RuntimeCommand.shutdown = shutdown f P e
  run_command e RuntimeCommand.request_snapshot = snapshot f e
  run_command e (RuntimeCommand.set_input_monitor gain) =
      some (on_mixer e (λ m. record m { monitor_gain = fmax gain (of_ℕ 0) }))
  run_command e (RuntimeCommand.adjust_input_monitor amount) =
      some (on_mixer e (λ m. record m { monitor_gain = fmax (add m.monitor_gain amount) (of_ℕ 0) }))
  run_command e (RuntimeCommand.set_input_volume input volume fader_volume) =
      some (on_mixer e (λ m. set_input_volume f m input volume fader_volume))
  run_command e (RuntimeCommand.adjust_input_volume input amount) =
      some (on_mixer e (λ m. adjust_input_volume f m input amount))
  run_command e (RuntimeCommand.toggle_input_record input) =
      some (on_mixer e (λ m. toggle_input_record f m input))
  run_command e (RuntimeCommand.set_master_gain gain) =
      some (on_mixer e (λ m. record m { master_gain = fmax gain (of_ℕ 0) }))
  run_command e (RuntimeCommand.adjust_master_gain amount) =
      some (on_mixer e (λ m. record m { master_gain = fmax (add m.master_gain amount) (of_ℕ 0) }))
  run_command e (RuntimeCommand.set_metronome enabled gain) =
      some (on_mixer e (λ m. record m { metro_enabled = enabled; metro_gain = fmax gain (of_ℕ 0) }))
  run_command e (RuntimeCommand.synth_note note velocity) =
      some (on_mixer e (λ m. call f m (note_on m.synth_channel note velocity)))
  run_command e RuntimeCommand.synth_off = some (on_mixer e (silence f))
  run_command e (RuntimeCommand.set_synth_enabled enabled) =
      some (on_mixer e (λ m. set_synth_enabled f m enabled))
  run_command e (RuntimeCommand.set_synth_channel channel) =
      some (on_mixer e (λ m. record m { synth_channel = min channel 15 }))
  run_command e (RuntimeCommand.set_synth_stereo stereo) =
      some (on_mixer e (λ m. record m { synth_stereo = stereo }))
  run_command e (RuntimeCommand.synth_controller _ control value) =
      some (on_mixer e (λ m. call f m (controller m.synth_channel control value)))
  run_command e (RuntimeCommand.synth_pitch_bend _ value) =
      some (on_mixer e (λ m. call f m (pitch_bend m.synth_channel (centred value))))
  run_command e (RuntimeCommand.synth_patch channel soundfont_id bank program) =
      some (on_mixer e (λ m. call f m (program_select (min channel 15) soundfont_id bank program)))
  run_command e (RuntimeCommand.synth_tuning cents) =
      some (on_mixer e (λ m. call f m (set_tuning cents)))

  unfoldable pub apply_command : Engine P → RuntimeCommand F → Option (Engine P)
  apply_command e command =
      if is_guarded e.export_job command || (e.calibrating && starts_recording command)
      then some (reject e command)
      else run_command e command

  -- `drain_commands` on the commands that wait.
  unfoldable pub drain_commands : List (RuntimeCommand F) → Engine P → Option (Engine P)
  drain_commands [] e = some e
  drain_commands (command ∷ commands) e = do
    applied ← apply_command e command
    drain_commands commands applied
