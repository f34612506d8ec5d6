-- ===== src/Engine/Runtime/Request.antt =====
-- src/native_dsp_graph.rs: `request_stop_recording` in a well-formed engine.
use freewheeling_plus.Prelude.{
  ℕ, ◌*◌, ◌%◌, ◌≡◌, refl, ◌∙◌, max, Bool, true, false, not, ◌&&◌, ◌||◌, none, some, ◌==◌, ltb, leb,
  leb→le, get_elem?, get_elem?-some, All-get, arith, Bool-cases, Option-cases, inl, inr,
}
use freewheeling_plus.Prelude.Words.{sat_add, sat_mul, usize_max, u32_max}
use freewheeling_plus.Prelude.Floats.{Float32}
use freewheeling_plus.Engine.Runtime.Follow.{
  timed-IsEngine, Follows, timed-Follows, changed-Keeps, cut_stop, go_on,
}
use freewheeling_plus.Engine.Blocks.{BlockPool}
use freewheeling_plus.Engine.Pulse.{extend_pulse_long_count}
use freewheeling_plus.Engine.Loop.{LoopSlot}
use freewheeling_plus.Engine.Runtime.{Engine, Recorder, put_loop, is_overdubbing}
use freewheeling_plus.Engine.Runtime.Recording.{
  extended, elapsed_beats, recording_tail_frames, stop_recording, stop_at_target, stop_at_pulse,
  stop_in_pulse, stop_taken, request_stop_recording,
}
use freewheeling_plus.Engine.Runtime.Room.{IsKept, kept-IsRoomy}
use freewheeling_plus.Engine.Runtime.Valid.{
  extend_pulse_long_count-position, IsLoop, IsEngine, put_loop-IsEngine,
}
use freewheeling_plus.Engine.Runtime.Stop.{stop_recording-IsStopped}

module _ (f : Float32) (P : BlockPool f.F) where
  open f use {F, of_ℕ}
  open P use {Pool, IsPool, ready, room, add_block, release_blocks}

  stop_at_target-Follows :
      (e : Engine P) (index : ℕ) (s : LoopSlot F) (pulse : ℕ) (notify : Bool)
      → IsEngine e
      → e.recorder.recording ≡ some index
      → get_elem? e.loops index ≡ some s
      → is_overdubbing s.mode ≡ false
      → (t : Engine P) × (stop_at_target f P e index s pulse notify ≡ some t) × Follows f P e t
  unfolding stop_at_target extended
  stop_at_target-Follows e index s pulse notify v r at m =
      let beats = elapsed_beats f P e.recorder pulse in
      let target =
        sat_add usize_max (sat_mul usize_max beats pulse) (recording_tail_frames e.recorder) in
      let clock = extend_pulse_long_count e.clock beats true in
      let phase = extend_pulse_long_count-position e.clock beats true in
      let timed : Engine P = record e { clock = clock; recorder = extended e.recorder } in
      elim (Bool-cases (leb target s.len)) [
        | inl cut ↦
            let t =
              cut_stop f P timed index s (record s { pulse_beats = beats; len = target }) notify
                (timed-IsEngine f P e clock (extended e.recorder) v refl phase) r at
                (record {
                  left = refl;
                  right = refl;
                  blocks = refl;
                  data_offset = refl;
                  len = leb→le target s.len cut;
                })
                refl m in
            (t.0, rw cut t.1, record { valid = t.2.valid; keeps = t.2.keeps })
        | inr later ↦
            let r' : Recorder = record (extended e.recorder) { stop_target_len = some target } in
            let last : Engine P = record e { clock = clock; recorder = r' } in
            (
              put_loop last index (record s { pulse_beats = beats }),
              rw later refl,
              timed-Follows f P e clock r' _
                  (go_on f P last index s beats (timed-IsEngine f P e clock r' v refl phase) at),
            )
      ]

  stop_at_pulse-Follows :
      (e : Engine P) (index : ℕ) (s : LoopSlot F) (pulse position : ℕ) (notify : Bool)
      → IsEngine e
      → e.recorder.recording ≡ some index
      → get_elem? e.loops index ≡ some s
      → is_overdubbing s.mode ≡ false
      → (t : Engine P) × (stop_at_pulse f P e index s pulse position notify ≡ some t)
        × Follows f P e t
  unfolding stop_at_pulse extended
  stop_at_pulse-Follows e index s pulse position notify v r at m =
      let soon : Recorder = record e.recorder { end_justify = false } in
      let next : Recorder = record (extended e.recorder) { waiting_stop = true } in
      let beats = max (sat_add u32_max e.recorder.pulse_beats 1) 1 in
      let clock = extend_pulse_long_count e.clock beats true in
      let phase = extend_pulse_long_count-position e.clock beats true in
      elim (Bool-cases
        (ltb (position * 2) pulse && leb (recording_tail_frames e.recorder) position)) [
          | inl now ↦
              let t =
                cut_stop f P (record e { recorder = soon }) index s
                  (record s { pulse_beats = max e.recorder.pulse_beats 1 }) notify
                  (timed-IsEngine f P e e.clock soon v refl refl) r at
                  (record {
                    left = refl;
                    right = refl;
                    blocks = refl;
                    data_offset = refl;
                    len = omega arith;
                  })
                  refl m in
              (t.0, rw now t.1, record { valid = t.2.valid; keeps = t.2.keeps })
          | inr later ↦
              let last : Engine P = record e { clock = clock; recorder = next } in
              (
                put_loop last index (record s { pulse_beats = beats }),
                rw later refl,
                timed-Follows f P e clock next _ (
                    go_on f P last index s beats (timed-IsEngine f P e clock next v refl phase) at),
              )
        ]

  stop_in_pulse-Follows :
      (e : Engine P) (index : ℕ) (s : LoopSlot F) (notify : Bool)
      → IsEngine e
      → e.recorder.recording ≡ some index
      → get_elem? e.loops index ≡ some s
      → is_overdubbing s.mode ≡ false
      → (t : Engine P) × (stop_in_pulse f P e index s notify ≡ some t) × Follows f P e t
  unfolding stop_in_pulse
  stop_in_pulse-Follows e index s notify v r at m =
      let pulse = max e.clock.pulse_frames 1 in
      let position = e.clock.pulse_position % pulse in
      let a = stop_at_target-Follows e index s pulse notify v r at m in
      let b = stop_at_pulse-Follows e index s pulse position notify v r at m in
      elim (Bool-cases (
        (e.recorder.started_late
          || not (e.recorder.start_phase == 0) && ltb position (recording_tail_frames e.recorder))
        && not e.recorder.waiting_start)) [
          | inl t ↦ (a.0, rw t a.1, a.2)
          | inr t ↦ (b.0, rw t b.1, b.2)
        ]

  stop_taken-Follows :
      (e : Engine P) (index : ℕ) (s : LoopSlot F) (notify : Bool)
      → IsEngine e
      → e.recorder.recording ≡ some index
      → get_elem? e.loops index ≡ some s
      → (t : Engine P) × (stop_taken f P e index s notify ≡ some t) × Follows f P e t
  unfolding stop_taken put_loop
  stop_taken-Follows e index s notify v r at =
      let w = All-get IsLoop e.loops index s v.loops_valid at in
      let faded : LoopSlot F = record s { overdub_fade_out = some (0, 0) } in
      let k : IsKept s faded = record {
        left = refl;
        right = refl;
        blocks = refl;
        data_offset = refl;
        len = omega arith;
      } in
      let a = stop_recording-IsStopped f P e notify v in
      elim (Bool-cases (is_overdubbing s.mode)) [
        | inl t ↦ (
          put_loop e index faded,
          rw t refl,
          record {
            valid =
                put_loop-IsEngine e index faded v
                  (record { roomy = kept-IsRoomy s faded k w.roomy; placed = w.placed });
            keeps = λ slot. changed-Keeps f P e index slot s faded at k refl;
          },
        )
        | inr t ↦
            let b = stop_in_pulse-Follows e index s notify v r at t in
            elim (Bool-cases (not e.clock.pulse_sync_active)) [
              | inr on ↦ (b.0, rw t (rw on b.1), b.2)
              | inl off ↦ (a.0, rw t (rw off a.1), record { valid = a.2.valid; keeps = a.3 })
            ]
      ]

  request_idle :
      (e : Engine P) (notify : Bool)
      → e.recorder.recording ≡ none
      → request_stop_recording f P e notify ≡ stop_recording f P e notify
  unfolding request_stop_recording
  request_idle e notify r = cc

  request_at :
      (e : Engine P) (index : ℕ) (s : LoopSlot F) (notify : Bool)
      → e.recorder.recording ≡ some index
      → get_elem? e.loops index ≡ some s
      → request_stop_recording f P e notify ≡ stop_taken f P e index s notify
  unfolding request_stop_recording
  request_at e index s notify r at = cc

  pub request_stop_recording-Follows :
      (e : Engine P) (notify : Bool)
      → IsEngine e
      → (t : Engine P) × (request_stop_recording f P e notify ≡ some t) × Follows f P e t
  request_stop_recording-Follows e notify v = elim (Option-cases e.recorder.recording) [
    | inl r ↦
        let a = stop_recording-IsStopped f P e notify v in
        (a.0, request_idle e notify r ∙ a.1, record { valid = a.2.valid; keeps = a.3 })
    | inr i ↦
        let s = get_elem?-some e.loops i.0 (v.recorded i.0 i.1) in
        let t = stop_taken-Follows e i.0 s.0 notify v i.1 s.1 in
        (t.0, request_at e i.0 s.0 notify i.1 s.1 ∙ t.1, t.2)
  ]

  -- In a well-formed engine a request to stop comes to its end, whatever loop is recorded and
  -- wherever the pulse stands, and leaves a well-formed engine.
  pub request_stop_recording-IsEngine :
      (e : Engine P) (notify : Bool)
      → IsEngine e
      → (t : Engine P) × (request_stop_recording f P e notify ≡ some t) × IsEngine t
  request_stop_recording-IsEngine e notify v =
      let t = request_stop_recording-Follows e notify v in (t.0, t.1, t.2.valid)
