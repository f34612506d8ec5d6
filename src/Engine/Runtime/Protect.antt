-- ===== src/Engine/Runtime/Protect.antt =====
-- src/native_dsp_graph.rs: a loop that is exported keeps its storage, whatever command comes.
use mathlib.Core.Option.{some-injective}
use freewheeling_plus.Prelude.{
  ℕ, ◌≡◌, ◌≢◌, refl, sym, ◌∙◌, subst, Bool, true, false, not, ◌&&◌, ◌||◌, some, ◌==◌, get_elem?,
  arith, Bool-cases, inl, inr,
}
use freewheeling_plus.Prelude.Floats.{Float32}
use freewheeling_plus.Engine.Command.{RuntimeCommand}
use freewheeling_plus.Engine.Blocks.{BlockPool}
use freewheeling_plus.Engine.Loop.{LoopSlot}
use freewheeling_plus.Engine.Runtime.{Engine, ExportJob, on_mixer, send_status, reject}
use freewheeling_plus.Engine.Runtime.Apply.{
  mutates_loop, starts_recording, is_guarded, on_clock, set_alignment, run_command, apply_command,
}
use freewheeling_plus.Engine.Runtime.Shown.{snapshot-loops}
use freewheeling_plus.Engine.Runtime.Valid.{IsEngine}
use freewheeling_plus.Engine.Runtime.Keep.{is_busy, IsUntouched, Keeps}
use freewheeling_plus.Engine.Runtime.Safety.{
  IsServed, apply_command-IsEngine, apply_run, apply_refused,
}
use freewheeling_plus.Engine.Runtime.Spare.{
  Spares, same-Spares, overdub-Spares, trigger-Spares, change_filled-Spares,
  set_trigger_gain-IsCalm, set_loop_gain-IsCalm, adjust_loop_gain-IsCalm,
  adjust_loop_gain_delta-IsCalm, mute-IsCalm, reset_loop_gain_deltas-Spares,
}
use freewheeling_plus.Engine.Runtime.Guard.{
  move_loop-Spares, erase-Spares, select_pulse-Spares, import_loop-Spares,
  request_loop_export-Spares, shutdown-Spares, record_loop-Spares, stop-Spares,
}

-- The commands that `mutates_loop` does not count, although they take the storage of the loop.
unfoldable pub escapes_guard : {F : Type 0} → RuntimeCommand F → ℕ → Bool
escapes_guard (RuntimeCommand.record_loop target presslen) slot =
    target == slot && not (presslen == 0)
escapes_guard RuntimeCommand.delete_pulse slot = true
escapes_guard _ slot = false

differ : (a b : ℕ) → (a == b) ≡ false → a ≢ b
differ a b h e = absurd (ground (arith, h, e))

neither : (a b k : ℕ) → (a == k || b == k) ≡ false → (a ≢ k) × (b ≢ k)
neither a b k h = (λ e. absurd (ground (arith, h, e)), λ e. absurd (ground (arith, h, e)))

record_other :
    (slot presslen k : ℕ)
    → (presslen == 0 && slot == k) ≡ false
    → (slot == k && not (presslen == 0)) ≡ false
    → slot ≢ k
record_other slot presslen k m o e = absurd (ground (arith, m, o, e))

module _ (f : Float32) (P : BlockPool f.F) (k : ℕ) where
  open f use {F}

  some-Spares : (e s t : Engine P) → some s ≡ some t → Spares k e s → Spares k e t
  some-Spares e s t r x = subst (λ (y : Engine P). Spares k e y) (some-injective s t r) x

  run_command-Spares :
      (e t : Engine P) (c : RuntimeCommand F) (job : ExportJob F)
      → IsEngine e
      → IsServed e c
      → e.export_job ≡ some job
      → mutates_loop c k ≡ false
      → escapes_guard c k ≡ false
      → run_command f P e c ≡ some t
      → Spares k e t
  unfolding run_command mutates_loop escapes_guard IsServed on_clock on_mixer set_alignment
  run_command-Spares e t (RuntimeCommand.record_loop slot presslen) job v h x m o r =
      record_loop-Spares f P k e t _ slot v h (record_other slot presslen k m o) r
  run_command-Spares e t (RuntimeCommand.overdub slot feedback gain) job v h x m o r =
      overdub-Spares f P k e t _ slot feedback gain v (differ slot k m) r
  run_command-Spares e t RuntimeCommand.stop_record job v h x m o r = stop-Spares f P k e t v r
  run_command-Spares e t (RuntimeCommand.trigger slot gain) job v h x m o r =
      some-Spares e _ t r (trigger-Spares f P k e _ slot gain)
  run_command-Spares e t (RuntimeCommand.set_trigger_gain slot gain) job v h x m o r =
      some-Spares e _ t r
        (change_filled-Spares f P k e _ slot _ (set_trigger_gain-IsCalm f P k gain))
  run_command-Spares e t (RuntimeCommand.set_loop_gain slot gain) job v h x m o r =
      some-Spares e _ t r (change_filled-Spares f P k e _ slot _ (set_loop_gain-IsCalm f P k gain))
  run_command-Spares e t (RuntimeCommand.adjust_loop_gain slot factor) job v h x m o r =
      some-Spares e _ t r
        (change_filled-Spares f P k e _ slot _ (adjust_loop_gain-IsCalm f P k factor))
  run_command-Spares e t (RuntimeCommand.adjust_loop_gain_delta slot amount) job v h x m o r =
      some-Spares e _ t r
        (change_filled-Spares f P k e _ slot _ (adjust_loop_gain_delta-IsCalm f P k amount))
  run_command-Spares e t RuntimeCommand.reset_loop_gain_deltas job v h x m o r =
      some-Spares e _ t r (reset_loop_gain_deltas-Spares f P k e)
  run_command-Spares e t (RuntimeCommand.move_loop source target) job v h x m o r =
      some-Spares e _ t r (
        move_loop-Spares f P k e _ source target (neither source target k m).0
          (neither source target k m).1)
  run_command-Spares e t (RuntimeCommand.mute slot silent) job v h x m o r =
      some-Spares e _ t r (change_filled-Spares f P k e _ slot _ (mute-IsCalm f P k silent))
  run_command-Spares e t (RuntimeCommand.erase slot) job v h x m o r =
      some-Spares e _ t r (erase-Spares f P k e _ slot (differ slot k m))
  run_command-Spares e t (RuntimeCommand.set_input_monitor gain) job v h x m o r =
      some-Spares e _ t r (same-Spares k e _ refl)
  run_command-Spares e t (RuntimeCommand.adjust_input_monitor gain) job v h x m o r =
      some-Spares e _ t r (same-Spares k e _ refl)
  run_command-Spares e t (RuntimeCommand.set_input_volume input volume fader) job v h x m o r =
      some-Spares e _ t r (same-Spares k e _ refl)
  run_command-Spares e t (RuntimeCommand.adjust_input_volume input amount) job v h x m o r =
      some-Spares e _ t r (same-Spares k e _ refl)
  run_command-Spares e t (RuntimeCommand.toggle_input_record input) job v h x m o r =
      some-Spares e _ t r (same-Spares k e _ refl)
  run_command-Spares e t (RuntimeCommand.set_master_gain gain) job v h x m o r =
      some-Spares e _ t r (same-Spares k e _ refl)
  run_command-Spares e t (RuntimeCommand.adjust_master_gain gain) job v h x m o r =
      some-Spares e _ t r (same-Spares k e _ refl)
  run_command-Spares e t (RuntimeCommand.set_pulse frames) job v h x m o r =
      some-Spares e _ t r (same-Spares k e _ refl)
  run_command-Spares e t (RuntimeCommand.set_pulse_subdivide beats) job v h x m o r =
      some-Spares e _ t r (same-Spares k e _ refl)
  run_command-Spares e t (RuntimeCommand.set_recording_alignment_frames frames) job v h x m o r =
      some-Spares e _ t r (same-Spares k e _ refl)
  run_command-Spares e t RuntimeCommand.calibrate_latency job v h x m o r =
      some-Spares e _ t r (same-Spares k e _ refl)
  run_command-Spares e t (RuntimeCommand.set_sample_rate rate) job v h x m o r =
      some-Spares e _ t r (same-Spares k e _ refl)
  run_command-Spares e t (RuntimeCommand.set_midi_sync_transmit enabled) job v h x m o r =
      some-Spares e _ t r (same-Spares k e _ refl)
  run_command-Spares e t (RuntimeCommand.set_sync_speed speed) job v h x m o r =
      some-Spares e _ t r (same-Spares k e _ refl)
  run_command-Spares e t (RuntimeCommand.set_sync_type kind) job v h x m o r =
      some-Spares e _ t r (same-Spares k e _ refl)
  run_command-Spares e t (RuntimeCommand.set_pulse_from_loop slot) job v h x m o r =
      some-Spares e _ t r (select_pulse-Spares f P k e _ slot)
  run_command-Spares e t (RuntimeCommand.tap_pulse new_len) job v h x m o r =
      some-Spares e _ t r (same-Spares k e _ refl)
  run_command-Spares e t RuntimeCommand.clear_pulse job v h x m o r =
      some-Spares e _ t r (same-Spares k e _ refl)
  run_command-Spares e t RuntimeCommand.delete_pulse job v h x m o r = absurd cc
  run_command-Spares e t (RuntimeCommand.set_metronome enabled gain) job v h x m o r =
      some-Spares e _ t r (same-Spares k e _ refl)
  run_command-Spares e t (RuntimeCommand.synth_note note velocity) job v h x m o r =
      some-Spares e _ t r (same-Spares k e _ refl)
  run_command-Spares e t RuntimeCommand.synth_off job v h x m o r =
      some-Spares e _ t r (same-Spares k e _ refl)
  run_command-Spares e t (RuntimeCommand.set_synth_enabled enabled) job v h x m o r =
      some-Spares e _ t r (same-Spares k e _ refl)
  run_command-Spares e t (RuntimeCommand.set_synth_channel channel) job v h x m o r =
      some-Spares e _ t r (same-Spares k e _ refl)
  run_command-Spares e t (RuntimeCommand.set_synth_stereo stereo) job v h x m o r =
      some-Spares e _ t r (same-Spares k e _ refl)
  run_command-Spares e t (RuntimeCommand.synth_controller channel control value) job v h x m o r =
      some-Spares e _ t r (same-Spares k e _ refl)
  run_command-Spares e t (RuntimeCommand.synth_pitch_bend channel value) job v h x m o r =
      some-Spares e _ t r (same-Spares k e _ refl)
  run_command-Spares e t (RuntimeCommand.synth_patch channel soundfont bank program) job v h x m o
        r =
      some-Spares e _ t r (same-Spares k e _ refl)
  run_command-Spares e t (RuntimeCommand.synth_tuning cents) job v h x m o r =
      some-Spares e _ t r (same-Spares k e _ refl)
  run_command-Spares e t RuntimeCommand.request_snapshot job v h x m o r =
      same-Spares k e t (snapshot-loops f e t r)
  run_command-Spares e t (RuntimeCommand.import_loop slot handle position mode gain) job v h x m o
        r =
      some-Spares e _ t r
        (import_loop-Spares f P k e slot handle position mode gain (differ slot k m))
  run_command-Spares e t (RuntimeCommand.request_loop_export slot handle) job v h x m o r =
      some-Spares e _ t r (request_loop_export-Spares f P k e slot handle job x)
  run_command-Spares e t RuntimeCommand.shutdown job v h x m o r = shutdown-Spares f P k e t v r

module _ (f : Float32) (P : BlockPool f.F) where
  open f use {F}

  guarded_by :
      (e : Engine P) (c : RuntimeCommand F) (job : ExportJob F)
      → e.export_job ≡ some job
      → is_guarded e.export_job c ≡ mutates_loop c job.slot
  unfolding is_guarded
  guarded_by e c job x = rw x refl

  refused_Keeps :
      (e t : Engine P) (c : RuntimeCommand F) (k : ℕ) → some (reject e c) ≡ some t → Spares k e t
  unfolding reject send_status
  refused_Keeps e t c k r = some-Spares f P k e (reject e c) t r (same-Spares k e (reject e c) refl)

  apply_command-Spares :
      (e t : Engine P) (c : RuntimeCommand F) (job : ExportJob F)
      → IsEngine e
      → IsServed e c
      → e.export_job ≡ some job
      → escapes_guard c job.slot ≡ false
      → apply_command f P e c ≡ some t
      → Spares job.slot e t
  apply_command-Spares e t c job v h x o r =
      elim (Bool-cases (is_guarded e.export_job c || (e.calibrating && starts_recording c))) [
        | inl y ↦ refused_Keeps e t c job.slot (sym (apply_refused f P e c y) ∙ r)
        | inr n ↦
            let m : mutates_loop c job.slot ≡ false = ground (arith, n, guarded_by e c job x) in
            run_command-Spares f P job.slot e t c job v h x m o (sym (apply_run f P e c n) ∙ r)
      ]

  -- While a loop is exported that is neither recorded nor overdubbed, a command that comes to a
  -- well-formed engine, with two blocks ready for `Record` and room for the blocks that `ImportLoop`
  -- gives back, leaves that loop its storage, with the same frames in it, and does not start
  -- to record or overdub it. Excepted are two commands that `mutates_loop` does not count:
  -- `DeletePulse`, and `Record` of the loop itself with a press length.
  pub apply_command-IsUntouched :
      (e : Engine P) (c : RuntimeCommand F) (job : ExportJob F) (s : LoopSlot F)
      → IsEngine e
      → IsServed e c
      → e.export_job ≡ some job
      → get_elem? e.loops job.slot ≡ some s
      → is_busy s ≡ false
      → escapes_guard c job.slot ≡ false
      → (t : Engine P) × (u : LoopSlot F) × (apply_command f P e c ≡ some t)
        × (get_elem? t.loops job.slot ≡ some u)
        × IsUntouched s u
  unfolding Spares Keeps
  apply_command-IsUntouched e c job s v h x at i o =
      let a = apply_command-IsEngine f P e c v h in
      let k = apply_command-Spares e a.0 c job v h x o a.1 s at i in (a.0, k.0, a.1, k.1, k.2)
