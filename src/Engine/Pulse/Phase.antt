-- ===== src/Engine/Pulse/Phase.antt =====
-- src/native_dsp_graph.rs: the pulse as one counter, and the loops that follow it.
use native.Mathlib.Nat
use freewheeling_plus.Prelude.{
  ℕ, zero, suc, ◌+◌, ◌*◌, ◌%◌, ◌<◌, ◌≤◌, ◌≡◌, refl, max, true, leb, if◌then◌else◌, arith, sym, ◌∙◌,
  ap, dec_lt,
}
use freewheeling_plus.Prelude.Floats.{Float32}
use freewheeling_plus.Engine.Pulse.{PulseClock}
use freewheeling_plus.Engine.Pulse.Frame.{
  advance_frame, advance_frames, advance_metronome, wrap_pulse,
}
use freewheeling_plus.Engine.Pulse.Valid.{IsValid}
use freewheeling_plus.Engine.Pulse.Steps.{
  Agrees, transmit_clock-Agrees, frame, clock_step-IsValid, step,
}

-- The frames since the start of the long cycle.
abbrev pub phase : PulseClock → ℕ
phase c = c.pulse_long_count * c.pulse_frames + c.pulse_position

-- The frames of a long cycle.
abbrev pub cycle : PulseClock → ℕ
cycle c = c.pulse_frames * c.pulse_long_length

-- The next frame of a clock, in the four numbers that place it.
pub record Moves (c d : PulseClock) : Type 0 where
  pub frames : d.pulse_frames ≡ c.pulse_frames
  pub length : d.pulse_long_length ≡ c.pulse_long_length
  pub active : d.pulse_sync_active ≡ c.pulse_sync_active
  pub position :
      d.pulse_position
      ≡ (if leb c.pulse_frames (c.pulse_position + 1) then 0 else c.pulse_position + 1)
  pub count : d.pulse_long_count ≡ (
      if leb c.pulse_frames (c.pulse_position + 1)
      then (c.pulse_long_count + 1) % max c.pulse_long_length 1
      else c.pulse_long_count)

wrap_pulse-Moves :
    (c m d : PulseClock)
    → m.pulse_position ≡ c.pulse_position + 1
    → m.pulse_frames ≡ c.pulse_frames
    → m.pulse_long_count ≡ c.pulse_long_count
    → m.pulse_long_length ≡ c.pulse_long_length
    → m.pulse_sync_active ≡ c.pulse_sync_active
    → Agrees m d
    → Moves c (wrap_pulse d)
unfolding wrap_pulse
wrap_pulse-Moves c m d p f n l s a = ground arith

pub advance_frame-Moves : (f : Float32) (c : PulseClock) → Moves c (advance_frame f c)
unfolding advance_frame advance_metronome
advance_frame-Moves f c =
    wrap_pulse-Moves c (record (advance_metronome c) { pulse_position = c.pulse_position + 1 }) _
      refl refl refl refl refl (transmit_clock-Agrees f _ c.pulse_position)

below_cycle :
    (frames length position count : ℕ)
    → position < frames
    → count < length
    → count * frames + position < frames * length
below_cycle frames length position count h l =
    let whole : (count + 1) * frames ≤ length * frames = grind arith in
    omega (arith, whole, Nat.mul_comm frames length)

mod_cycle :
    (frames length position count x : ℕ)
    → position < frames
    → count < length
    → x ≡ count * frames + position
    → x % (frames * length) ≡ x
mod_cycle frames length position count x h l e =
    Nat.mod-eq_of_lt (rw e (below_cycle frames length position count h l))

wrapped :
    (frames length count : ℕ)
    → 0 < frames
    → count < length
    → (count + 1) % length * frames ≡ (count + 1) * frames % (frames * length)
wrapped frames length count h l = elim (dec_lt (count + 1) length) [
  | yes e ↦
      rw (Nat.mod-eq_of_lt e)
        (sym (mod_cycle frames length 0 (count + 1) ((count + 1) * frames) h e (omega arith)))
  | no e ↦
      let last : count + 1 ≡ length = omega arith in
      rw (last, Nat.mod_self, Nat.mul_comm length frames, Nat.mod_self) (omega arith)
]

pub step_phase :
    (frames length position count : ℕ)
    → position < frames
    → count < length
    → (if leb frames (position + 1) then (count + 1) % max length 1 else count) * frames
        + (if leb frames (position + 1) then 0 else position + 1)
      ≡ (count * frames + position + 1) % (frames * length)
step_phase frames length position count h l = elim (dec_lt (position + 1) frames) [
  | yes e ↦ ground (
    arith,
    mod_cycle frames length (position + 1) count (count * frames + position + 1) e l (omega arith),
  )
  | no e ↦
      let whole : count * frames + position + 1 ≡ (count + 1) * frames = omega arith in
      rw whole (ground (arith, wrapped frames length count (omega arith) l))
]

advance_frame-phase :
    (f : Float32) (c : PulseClock)
    → c.pulse_position < c.pulse_frames
    → c.pulse_long_count < c.pulse_long_length
    → phase (advance_frame f c) ≡ (phase c + 1) % cycle c
advance_frame-phase f c h l =
    let m = advance_frame-Moves f c in
    rw (m.frames, m.position, m.count)
      (step_phase c.pulse_frames c.pulse_long_length c.pulse_position c.pulse_long_count h l)

advance_frame-cycle : (f : Float32) (c : PulseClock) → cycle (advance_frame f c) ≡ cycle c
advance_frame-cycle f c = let m = advance_frame-Moves f c in rw (m.frames, m.length)

-- Over any number of frames the pulse counts them, modulo its long cycle: position and long count
-- together are the start plus the frames that passed. Nothing is lost at a wrap, whatever the MIDI
-- clock sends meanwhile. The clock must be valid, with pulse sync on.
pub advance_frames-phase :
    (f : Float32) (n : ℕ) (c : PulseClock)
    → IsValid c
    → c.pulse_sync_active ≡ true
    → phase (advance_frames f n c) ≡ (phase c + n) % cycle c
unfolding advance_frames
advance_frames-phase f zero c v a = rw Nat.add-zero (
    sym (
      mod_cycle c.pulse_frames c.pulse_long_length c.pulse_position c.pulse_long_count (phase c)
        (v.placed a) v.counted refl))
advance_frames-phase f (suc n) c v a =
    advance_frames-phase f n (advance_frame f c) (unfold step in clock_step-IsValid f c frame v tt)
      ((advance_frame-Moves f c).active ∙ a)
    ∙ rw (advance_frame-cycle f c, advance_frame-phase f c (v.placed a) v.counted)
        (Nat.mod-add-mod (phase c + 1) (cycle c) n ∙ ap (λ k. k % cycle c) (omega arith))
