-- ===== src/Engine/Runtime/Recording.antt =====
-- src/native_dsp_graph.rs: how a recording is stopped, and how one starts with frames from before.
use freewheeling_plus.Prelude.{
  ℕ, zero, suc, ◌+◌, ◌^◌, ◌-◌, ◌*◌, ◌/◌, ◌%◌, max, min, Bool, true, false, not, ◌&&◌, ◌||◌, Option,
  none, some, ◌==◌, ltb, leb, if◌then◌else◌, length, get_elem?,
}
use freewheeling_plus.Prelude.Options.{◌>>=◌}
use freewheeling_plus.Prelude.Words.{sat_add, sat_mul, u32_max, u64_max, usize_max}
use freewheeling_plus.Prelude.Floats.{Float32}
use freewheeling_plus.Engine.Command.{empty, playing}
use freewheeling_plus.Engine.Blocks.{BlockPool}
use freewheeling_plus.Engine.Pulse.{PulseClock, pulse_synced_loop_position, extend_pulse_long_count}
use freewheeling_plus.Engine.Loop.{
  LoopSlot, loop_smooth_frames, uses_blocks, capacity, set_sample, copy_head, stereo_at,
  smooth_endpoints,
}
use freewheeling_plus.Engine.Runtime.{
  Engine, Recorder, InputHistory, send_status, put_loop, is_recording, is_overdubbing,
  loop_completed,
}

abbrev pub rec_tail_frames : ℕ
rec_tail_frames = 1024

unfoldable pub recording_tail_frames : Recorder → ℕ
recording_tail_frames r = max rec_tail_frames r.alignment_frames

-- What `stop_recording` resets before it looks at the loop.
unfoldable pub stopped : Recorder → Recorder
stopped r = record r {
  recording = none;
  waiting_start = false;
  waiting_stop = false;
  tail_remaining = none;
  started_late = false;
  start_phase = 0;
  elapsed_frames = 0;
  stop_target_len = none;
  skip_frames = 0;
}

-- The stop will be, or is, at the next downbeat: the long count is extended now.
unfoldable pub extended : Recorder → Recorder
extended r = record r { pulse_extension_applied = true; end_justify = true }

-- A loop that was just recorded and belongs to the pulse.
unfoldable pub is_synced_take : {F : Type 0} → LoopSlot F → Bool
is_synced_take s = is_recording s.mode && s.pulse_synced && not (s.len == 0)

-- The loop when its recording ends.
unfoldable pub end_slot : {F : Type 0} → PulseClock → LoopSlot F → LoopSlot F
end_slot c s =
    let beats = if is_synced_take s then max s.pulse_beats 1 else s.pulse_beats in
    record s {
      pulse_beats = beats;
      boundary_fade_position = none;
      overdub_fade_out = none;
      position =
          if is_overdubbing s.mode
          then s.position
          else if c.pulse_sync_active && not (s.len == 0)
          then pulse_synced_loop_position c.pulse_frames c.pulse_position c.pulse_long_count beats
              s.len s.capture_alignment_frames
          else 0;
      mode = if s.len == 0 then empty else playing;
      recorded_frames = s.len % 2 ^ 32;
    }

module _ (f : Float32) (P : BlockPool f.F) where
  open f use {F, of_ℕ}
  open P use {Pool, add_block}

  -- The loops that add blocks until the capacity is reached; false where no block can be added.
  unfoldable pub extend_storage : (fuel required : ℕ) → Pool → LoopSlot F → Pool × LoopSlot F × Bool
  extend_storage zero required p s = (p, s, leb required (capacity s))
  extend_storage (suc fuel) required p s =
      let added = add_block p s.blocks in
      let rest = extend_storage fuel required added.0 (record s { blocks = added.1 }) in
      if leb required (capacity s)
      then (p, s, true)
      else if not (uses_blocks s)
      then (p, s, false)
      else if added.2
      then rest
      else (added.0, record s { blocks = added.1 }, false)

  -- Each block adds frames, so that there is no need for more turns than this.
  unfoldable pub reach : ℕ → Pool → LoopSlot F → Pool × LoopSlot F × Bool
  reach required p s = extend_storage (required + s.data_offset) required p s

  unfoldable pub append_unsynchronised_crossfade_tail :
      Pool → LoopSlot F → Option (Pool × LoopSlot F × Bool)
  append_unsynchronised_crossfade_tail p s =
      let required = sat_add usize_max s.len loop_smooth_frames in
      let reached = reach required p s in
      if reached.2
      then (do
        copied ← copy_head loop_smooth_frames 0 s.len reached.1
        some (reached.0, record copied { len = required }, true))
      else some reached

  -- The part of `stop_recording` that smooths a loop which is not in step with the pulse.
  unfoldable pub smooth_take : Pool → LoopSlot F → Option (Pool × LoopSlot F)
  smooth_take p s =
      if is_recording s.mode && not s.pulse_synced && leb loop_smooth_frames s.len
      then (do
        tailed ← append_unsynchronised_crossfade_tail p s
        smoothed ← (if tailed.2 then smooth_endpoints f tailed.1 else some tailed.1)
        some (tailed.0, smoothed))
      else some (p, s)

  -- The engine after the end of a recording, which adds its beats to the long count.
  unfoldable pub end_take : Engine P → ℕ → LoopSlot F → Engine P
  end_take e index s = record (put_loop e index (end_slot e.clock s)) {
    clock =
        if is_synced_take s && not e.recorder.pulse_extension_applied
        then extend_pulse_long_count e.clock (max s.pulse_beats 1) e.recorder.end_justify
        else e.clock;
    recorder = record e.recorder { pulse_extension_applied = false };
  }

  unfoldable pub complete : Engine P → ℕ → LoopSlot F → Bool → Engine P
  complete e index s notify =
      if notify && not (s.len == 0) && (is_recording s.mode || is_overdubbing s.mode)
      then send_status (end_take e index s) (loop_completed index)
      else end_take e index s

  unfoldable pub finish_take : Engine P → ℕ → Bool → Option (Engine P)
  finish_take e index notify = do
    s ← get_elem? e.loops index
    smoothed ← smooth_take e.loop_storage s
    some (complete (record e { loop_storage = smoothed.0 }) index smoothed.1 notify)

  unfoldable pub stop_recording : Engine P → Bool → Option (Engine P)
  stop_recording e notify =
      let quiet : Engine P = record e { recorder = stopped e.recorder } in
      elim e.recorder.recording [ none ↦ some quiet | some index ↦ finish_take quiet index notify ]

  -- The loops of `prefill_recording_from_history`.
  unfoldable pub prefill_silence : (n offset : ℕ) → LoopSlot F → Option (LoopSlot F)
  prefill_silence zero offset s = some s
  prefill_silence (suc n) offset s = do
    written ← set_sample s offset (of_ℕ 0) (of_ℕ 0)
    prefill_silence n (suc offset) written

  unfoldable pub prefill_input :
      (n offset missing start : ℕ) → InputHistory F → LoopSlot F → Option (LoopSlot F)
  prefill_input zero offset missing start h s = some s
  prefill_input (suc n) offset missing start h s = do
    sample ← stereo_at h.left h.right ((start + offset) % length h.left)
    written ← set_sample s (missing + offset) sample.0 sample.1
    prefill_input n (suc offset) missing start h written

  unfoldable pub prefill_recording_from_history :
      InputHistory F → LoopSlot F → ℕ → Option (LoopSlot F)
  prefill_recording_from_history h s requested =
      let total = min requested (capacity s) in
      let available = min total h.len in
      let start = (h.position + length h.left - available) % length h.left in
      if total == 0 || length h.left == 0 then some s else (do
        silent ← prefill_silence (total - available) 0 s
        filled ← prefill_input available 0 (total - available) start h silent
        some (record filled { len = total }))

  -- `request_stop_recording` anchors the length to the time of the command: the beats of the time
  -- since the start, rounded, then the length that the recording is to have.
  unfoldable pub elapsed_beats : Recorder → ℕ → ℕ
  elapsed_beats r pulse = min (max (sat_add u64_max r.elapsed_frames (pulse / 2) / pulse) 1) u32_max

  unfoldable pub stop_at_target : Engine P → ℕ → LoopSlot F → ℕ → Bool → Option (Engine P)
  stop_at_target e index s pulse notify =
      let beats = elapsed_beats e.recorder pulse in
      let target =
        sat_add usize_max (sat_mul usize_max beats pulse) (recording_tail_frames e.recorder) in
      let timed : Engine P = record e {
        clock = extend_pulse_long_count e.clock beats true;
        recorder = extended e.recorder;
      } in
      if leb target s.len
      then stop_recording (put_loop timed index (record s { pulse_beats = beats; len = target }))
          notify
      else some (
          put_loop
            (record timed {
              recorder = record (extended e.recorder) { stop_target_len = some target };
            })
            index (record s { pulse_beats = beats }))

  -- In the first half of a pulse, past the tail, the recording ends; else at the next downbeat.
  unfoldable pub stop_at_pulse : Engine P → ℕ → LoopSlot F → ℕ → ℕ → Bool → Option (Engine P)
  stop_at_pulse e index s pulse position notify =
      let beats = max (sat_add u32_max e.recorder.pulse_beats 1) 1 in
      if ltb (position * 2) pulse && leb (recording_tail_frames e.recorder) position
      then stop_recording
          (put_loop (record e { recorder = record e.recorder { end_justify = false } }) index
            (record s { pulse_beats = max e.recorder.pulse_beats 1 }))
          notify
      else some (
          put_loop
            (record e {
              clock = extend_pulse_long_count e.clock beats true;
              recorder = record (extended e.recorder) { waiting_stop = true };
            })
            index (record s { pulse_beats = beats }))

  unfoldable pub stop_in_pulse : Engine P → ℕ → LoopSlot F → Bool → Option (Engine P)
  stop_in_pulse e index s notify =
      let pulse = max e.clock.pulse_frames 1 in
      let position = e.clock.pulse_position % pulse in
      let short_tail =
        not (e.recorder.start_phase == 0) && ltb position (recording_tail_frames e.recorder) in
      if (e.recorder.started_late || short_tail) && not e.recorder.waiting_start
      then stop_at_target e index s pulse notify
      else stop_at_pulse e index s pulse position notify

  unfoldable pub stop_taken : Engine P → ℕ → LoopSlot F → Bool → Option (Engine P)
  stop_taken e index s notify =
      if is_overdubbing s.mode
      then some (put_loop e index (record s { overdub_fade_out = some (0, 0) }))
      else if not e.clock.pulse_sync_active
      then stop_recording e notify
      else stop_in_pulse e index s notify

  unfoldable pub request_stop_recording : Engine P → Bool → Option (Engine P)
  request_stop_recording e notify = elim e.recorder.recording [
    | none ↦ stop_recording e notify
    | some index ↦ get_elem? e.loops index >>= (λ s. stop_taken e index s notify)
  ]
