-- ===== src/Engine/Pulse/InStep.antt =====
-- src/native_dsp_graph.rs: `pulse_synced_loop_position` against the play code, which moves a loop on
-- by one frame modulo its length.
use native.Mathlib.Nat
use Prim.Native.Nat.{◌∣◌}
use freewheeling_plus.Prelude.{
  ℕ, ◌+◌, ◌*◌, ◌%◌, ◌<◌, ◌≤◌, ◌≡◌, max, true, leb, if◌then◌else◌, arith, sym, ◌∙◌, ap,
}
use freewheeling_plus.Prelude.Words.{u32_max, usize_max, sat_add}
use freewheeling_plus.Prelude.Floats.{Float32}
use freewheeling_plus.Engine.Pulse.{PulseClock, pulse_synced_loop_position}
use freewheeling_plus.Engine.Pulse.Frame.{advance_frame}
use freewheeling_plus.Engine.Pulse.Valid.{IsValid}
use freewheeling_plus.Engine.Pulse.Phase.{advance_frame-Moves, step_phase}

-- The position that the clock gives to a loop.
abbrev pub loop_position : PulseClock → (beats len alignment : ℕ) → ℕ
loop_position c beats len alignment =
    pulse_synced_loop_position c.pulse_frames c.pulse_position c.pulse_long_count beats len
      alignment

-- The position is inside the loop, whatever the clock and the loop.
pub pulse_synced_loop_position-lt :
    (frames position count beats len alignment : ℕ)
    → 0 < len
    → pulse_synced_loop_position frames position count beats len alignment < len
unfolding pulse_synced_loop_position
pulse_synced_loop_position-lt frames position count beats len alignment h = ground (
  arith,
  Nat.mod-lt
      (sat_add usize_max (sat_add usize_max (count % beats * max frames 1) position) alignment)
      {m = len} h,
)

-- From `u32` values no sum saturates.
unsaturated :
    (frames position count beats len alignment : ℕ)
    → 0 < len
    → 0 < beats
    → beats ≤ u32_max
    → frames ≤ u32_max
    → position < frames
    → alignment ≤ u32_max
    → pulse_synced_loop_position frames position count beats len alignment
      ≡ (count % beats * frames + position + alignment) % len
unfolding pulse_synced_loop_position
unsaturated frames position count beats len alignment l b bm fm h am =
    let below : count % beats < beats = Nat.mod-lt count {m = beats} b in
    let rows : (count % beats + 1) * frames ≤ u32_max * frames = grind arith in
    let one : max frames 1 ≡ frames = omega arith in
    let room : count % beats * frames + position + alignment ≤ usize_max = omega arith in
    rw one (ground (arith, room))

beat_after :
    (count length beats : ℕ)
    → 0 < length
    → 0 < beats
    → beats ∣ length
    → (count + 1) % max length 1 % beats ≡ (count % beats + 1) % max beats 1
beat_after count length beats l b d =
    let one_l : max length 1 ≡ length = omega arith in
    let one_b : max beats 1 ≡ beats = omega arith in
    rw (one_l, one_b) (Nat.mod-mod_of_dvd beats (count + 1) d ∙ sym (Nat.mod-add-mod count beats 1))

-- One frame of the pulse moves the musical part of the position by one, modulo the loop.
beat_step :
    (frames length position count beats : ℕ)
    → position < frames
    → 0 < length
    → 0 < beats
    → beats ∣ length
    → (if leb frames (position + 1) then (count + 1) % max length 1 else count) % beats * frames
        + (if leb frames (position + 1) then 0 else position + 1)
      ≡ (count % beats * frames + position + 1) % (frames * beats)
beat_step frames length position count beats h l b d = ground (
  arith,
  beat_after count length beats l b d,
  step_phase frames beats position (count % beats) h (Nat.mod-lt count b),
)

shift_mod : (x y a n : ℕ) → y ≡ (x + 1) % n → (y + a) % n ≡ ((x + a) % n + 1) % n
shift_mod x y a n e = rw e (
    Nat.mod-add-mod (x + 1) n a
    ∙ (ap (λ k. k % n) (omega arith) ∙ sym (Nat.mod-add-mod (x + a) n 1)))

-- A loop of exactly `beats` pulses, of which the long cycle is a multiple, stays in step: the
-- position that the clock gives it one frame later is the one that playing it gives, one frame on
-- modulo its length. So the downbeat finds such a loop in place and moves it nowhere. The capture
-- alignment is any `u32`, and the clock is valid, with pulse sync on.
pub advance_frame-loop_position :
    (f : Float32) (c : PulseClock) (beats alignment : ℕ)
    → IsValid c
    → c.pulse_sync_active ≡ true
    → 0 < beats
    → beats ≤ u32_max
    → alignment ≤ u32_max
    → beats ∣ c.pulse_long_length
    → loop_position (advance_frame f c) beats (c.pulse_frames * beats) alignment
      ≡ (loop_position c beats (c.pulse_frames * beats) alignment + 1) % (c.pulse_frames * beats)
advance_frame-loop_position f c beats alignment v active b bm am d =
    let m = advance_frame-Moves f c in
    let h = v.placed active in
    let whole : 0 < c.pulse_frames * beats = grind arith in
    let next_placed : (advance_frame f c).pulse_position < c.pulse_frames =
      rw m.position (ground arith) in
    unsaturated _ _ _ beats (c.pulse_frames * beats) alignment whole b bm (rw m.frames v.frames_fit)
      (rw m.frames next_placed) am
    ∙ (rw (m.frames, m.position, m.count)
          (shift_mod (c.pulse_long_count % beats * c.pulse_frames + c.pulse_position) _ alignment
            (c.pulse_frames * beats)
            (beat_step c.pulse_frames c.pulse_long_length c.pulse_position c.pulse_long_count beats
              h (omega (arith, v.counted)) b d))
        ∙ ap (λ k. (k + 1) % (c.pulse_frames * beats))
            (sym (
              unsaturated c.pulse_frames c.pulse_position c.pulse_long_count beats
                (c.pulse_frames * beats) alignment whole b bm v.frames_fit h am)))
