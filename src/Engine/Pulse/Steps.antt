-- ===== src/Engine/Pulse/Steps.antt =====
-- src/native_dsp_graph.rs: the pulse clock under any sequence of commands and frames.
use freewheeling_plus.Prelude.{
  ℕ, ◌+◌, ◌<◌, ◌≤◌, ◌≡◌, Bool, true, leb, arith, Bool-cases, inl, inr, sym, ◌∙◌,
}
use freewheeling_plus.Prelude.Int.{ℤ}
use freewheeling_plus.Prelude.Words.{u32_max}
use freewheeling_plus.Prelude.Floats.{Float32}
use freewheeling_plus.Engine.Pulse.{PulseClock, extend_pulse_long_count}
use freewheeling_plus.Engine.Pulse.LongCount.{
  extend_pulse_long_count-bounded, extend_pulse_long_count_keeps,
}
use freewheeling_plus.Engine.Pulse.Commands.{
  set_pulse, set_pulse_subdivide, set_midi_sync_transmit, set_sync_speed, set_sync_type,
  set_pulse_from_loop, tap_pulse, clear_pulse, delete_pulse,
}
use freewheeling_plus.Engine.Pulse.Frame.{
  advance_frame, advance_metronome, transmit_clock, send_clock, count_clock, wrap_pulse,
  clocks_per_pulse,
}
use freewheeling_plus.Engine.Pulse.Valid.{
  IsValid, set_pulse-IsValid, set_pulse_from_loop-IsValid, tap_pulse-IsValid,
}

-- Two clocks that agree on what the invariant speaks of.
pub record Agrees (c d : PulseClock) : Type 0 where
  pub frames : d.pulse_frames ≡ c.pulse_frames
  pub position : d.pulse_position ≡ c.pulse_position
  pub count : d.pulse_long_count ≡ c.pulse_long_count
  pub length : d.pulse_long_length ≡ c.pulse_long_length
  pub active : d.pulse_sync_active ≡ c.pulse_sync_active

send_clock-Agrees : (c : PulseClock) (clocks : ℤ) → Agrees c (send_clock c clocks)
unfolding send_clock count_clock
send_clock-Agrees c clocks = ground arith

-- Transmitting the MIDI clock leaves the pulse where it is.
pub transmit_clock-Agrees :
    (f : Float32) (c : PulseClock) (old : ℕ) → Agrees c (transmit_clock f c old)
unfolding transmit_clock
transmit_clock-Agrees f c old = ground (arith, send_clock-Agrees c (clocks_per_pulse c))

wrap_pulse-IsValid :
    (c : PulseClock)
    → c.pulse_long_count < c.pulse_long_length
    → c.pulse_long_length ≤ u32_max
    → (c.pulse_sync_active ≡ true → 0 < c.pulse_frames)
    → c.pulse_frames ≤ u32_max
    → IsValid (wrap_pulse c)
unfolding wrap_pulse
wrap_pulse-IsValid c h l p q = elim (Bool-cases (leb c.pulse_frames c.pulse_position)) [
  | inl wraps ↦
      simp wraps (record { counted = grind arith; length_fits = l; placed = p; frames_fit = q })
  | inr stays ↦
      simp stays
        (record { counted = h; length_fits = l; placed = λ _. ground arith; frames_fit = q })
]

advance_frame-IsValid : (f : Float32) (c : PulseClock) → IsValid c → IsValid (advance_frame f c)
unfolding advance_frame advance_metronome
advance_frame-IsValid f c v =
    wrap_pulse-IsValid sent (rw (a.count, a.length) v.counted) (rw a.length v.length_fits)
      (λ e. rw a.frames (positive (sym a.active ∙ e))) (rw a.frames v.frames_fit)
  where
    moved : PulseClock
    moved = record (advance_metronome c) { pulse_position = c.pulse_position + 1 }

    sent : PulseClock
    sent = transmit_clock f moved c.pulse_position

    a : Agrees moved sent
    a = transmit_clock-Agrees f moved c.pulse_position

    positive : c.pulse_sync_active ≡ true → 0 < c.pulse_frames
    positive e = let at = v.placed e in omega arith

-- What moves the pulse clock: the pulse commands, the growth of the long count by a loop of so many
-- beats, and a frame.
pub data PulseOp : Type 0 where
  sets_pulse sets_subdivide : ℕ → PulseOp
  sets_transmit sets_sync_type : Bool → PulseOp
  sets_sync_speed : ℤ → PulseOp
  sets_from_loop : (len position : ℕ) → PulseOp
  taps : Bool → PulseOp
  clears deletes frame : PulseOp
  extends : ℕ → Bool → PulseOp

unfoldable pub step : Float32 → PulseClock → PulseOp → PulseClock
step f c (sets_pulse frames) = set_pulse c frames
step f c (sets_subdivide beats) = set_pulse_subdivide c beats
step f c (sets_transmit enabled) = set_midi_sync_transmit c enabled
step f c (sets_sync_type kind) = set_sync_type c kind
step f c (sets_sync_speed speed) = set_sync_speed c speed
step f c (sets_from_loop len position) = set_pulse_from_loop c len position
step f c (taps new_len) = tap_pulse f c new_len
step f c clears = clear_pulse c
step f c deletes = delete_pulse c
step f c frame = advance_frame f c
step f c (extends beats end_justify) = extend_pulse_long_count c beats end_justify

-- The frames of a command are a `u32`.
abbrev pub IsCommand : PulseOp → Type 0
IsCommand (sets_pulse frames) = frames ≤ u32_max
IsCommand _ = Unit

extend-IsValid :
    (c : PulseClock) (beats : ℕ) (end_justify : Bool)
    → IsValid c
    → IsValid (extend_pulse_long_count c beats end_justify)
extend-IsValid c beats end_justify v =
    let b = extend_pulse_long_count-bounded c beats end_justify v.counted v.length_fits in
    let k = extend_pulse_long_count_keeps c beats end_justify in
    record {
      counted = b.0;
      length_fits = b.1;
      placed = λ e. rw (k.0, k.1) (v.placed (sym k.2 ∙ e));
      frames_fit = rw k.0 v.frames_fit;
    }

-- Every pulse command but `SetSampleRate`, every extension by a loop and every frame keeps the
-- invariant: the long count below the long length, and the position below the pulse length while
-- pulse sync is on; nothing is said of the position while it is off. `SetSampleRate` replaces the
-- pulse length and leaves the position, which may then lie behind it.
pub clock_step-IsValid :
    (f : Float32) (c : PulseClock) (op : PulseOp) → IsValid c → IsCommand op → IsValid (step f c op)
unfolding step
clock_step-IsValid f c (sets_pulse frames) v a = set_pulse-IsValid c frames a
clock_step-IsValid f c (sets_subdivide beats) v a = unfold set_pulse_subdivide in ground arith
clock_step-IsValid f c (sets_transmit enabled) v a = unfold set_midi_sync_transmit in ground arith
clock_step-IsValid f c (sets_sync_type kind) v a = unfold set_sync_type in ground arith
clock_step-IsValid f c (sets_sync_speed speed) v a = unfold set_sync_speed in ground arith
clock_step-IsValid f c (sets_from_loop len position) v a =
    set_pulse_from_loop-IsValid c len position
clock_step-IsValid f c (taps new_len) v a = tap_pulse-IsValid f c new_len v
clock_step-IsValid f c clears v a = unfold clear_pulse in ground arith
clock_step-IsValid f c deletes v a = unfold delete_pulse in ground arith
clock_step-IsValid f c frame v a = advance_frame-IsValid f c v
clock_step-IsValid f c (extends beats end_justify) v a = extend-IsValid c beats end_justify v
