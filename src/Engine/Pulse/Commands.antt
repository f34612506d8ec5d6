-- ===== src/Engine/Pulse/Commands.antt =====
-- src/native_dsp_graph.rs: the arms of `apply_command` that work on the pulse clock. What they do to
-- the loops is left out; a status that cannot be queued is dropped.
use freewheeling_plus.Prelude.{
  ℕ, ◌+◌, ◌-◌, ◌*◌, ◌/◌, ◌%◌, ◌^◌, max, min, Bool, true, false, not, ◌&&◌, ◌||◌, ◌∷◌, ◌==◌, ltb,
  leb, if◌then◌else◌,
}
use freewheeling_plus.Prelude.Int.{ℤ}
use freewheeling_plus.Prelude.Words.{u32_max}
use freewheeling_plus.Prelude.Floats.{Float32}
use freewheeling_plus.Engine.Pulse.{PulseClock, ClockRun, midi_transport_output}

unfoldable pub set_pulse : PulseClock → ℕ → PulseClock
set_pulse c frames = record c {
  pulse_frames = max frames 1;
  pulse_position = c.pulse_position % max frames 1;
  pulse_long_count = 0;
  pulse_long_length = 1;
  pulse_sync_active = true;
}

unfoldable pub set_pulse_subdivide : PulseClock → ℕ → PulseClock
set_pulse_subdivide c beats = record c { pulse_subdivide = max beats 1 }

unfoldable pub set_sample_rate : PulseClock → ℕ → PulseClock
set_sample_rate c rate =
    if not (rate == 0) && not (rate == c.sample_rate)
    then record c { sample_rate = rate; pulse_frames = rate / 2 }
    else c

unfoldable pub set_midi_sync_transmit : PulseClock → Bool → PulseClock
set_midi_sync_transmit c enabled = record c { midi_sync_transmit = enabled }

unfoldable pub set_sync_speed : PulseClock → ℤ → PulseClock
set_sync_speed c speed = record c { sync_speed = speed }

unfoldable pub set_sync_type : PulseClock → Bool → PulseClock
set_sync_type c kind = record c { sync_type = kind }

-- `SetPulseFromLoop` after its early returns: the clock is inactive, and the loop has `len` frames,
-- more than none, and stands at `position`.
unfoldable pub set_pulse_from_loop : PulseClock → (len position : ℕ) → PulseClock
set_pulse_from_loop c len position =
    let beats = max c.pulse_subdivide 1 in
    let frames = min (max (len / beats) 1) u32_max in
    record c {
      pulse_frames = frames;
      pulse_position = position % frames;
      pulse_long_count = 0;
      pulse_long_length = 1;
      pulse_sync_active = true;
      clock_run = if c.midi_sync_transmit then ClockRun.start else c.clock_run;
    }

-- "Refresh sync": MIDI stop, and start again at the next downbeat.
unfoldable pub refresh_sync : PulseClock → PulseClock
refresh_sync c =
    if c.midi_sync_transmit
    then record c { sent = midi_transport_output false ∷ c.sent; clock_run = ClockRun.start }
    else c

-- `sample_clock.wrapping_sub(pulse_prev_tap)`.
unfoldable pub tap_gap : PulseClock → ℕ
tap_gap c = (c.sample_clock + 2 ^ 64 - c.pulse_prev_tap) % 2 ^ 64

-- `measured.clamp(1, u32::MAX)`.
unfoldable pub clamp_frames : ℕ → ℕ
clamp_frames n = min (max n 1) u32_max

-- The second tap of an armed, stopped pulse defines its length.
unfoldable pub tap_armed : PulseClock → Bool → PulseClock
tap_armed c new_len =
    let timed =
      if new_len
      then record c {
        pulse_frames = clamp_frames (tap_gap c);
        pulse_prev_tap = c.sample_clock;
        pulse_tap_armed = false;
        pulse_sync_active = true;
      }
      else c in
    record timed { pulse_position = 0; pulse_downbeat_suppressed = true }

-- `Pulse::Wrap()` in the second half of the pulse, `Pulse::SetPos(0)` in the first.
unfoldable pub reanchor : PulseClock → Bool → PulseClock
reanchor c next_downbeat =
    if next_downbeat
    then record c {
      pulse_position = 0;
      pulse_long_count = (c.pulse_long_count + 1) % max c.pulse_long_length 1;
      metro_noise_offset = 0;
    }
    else record c { pulse_position = 0; pulse_downbeat_suppressed = true }

module _ (f : Float32) where
  open f use {F, of_ℕ, add, sub, mul, div, lt, to_u32, max as fmax}

  -- `old_len as f32 * GRADUATION + measured as f32 * (1.0 - GRADUATION)`.
  unfoldable pub blended : (old_len measured : ℕ) → F
  blended old_len measured =
      add (mul (of_ℕ old_len) (of_ℕ 0)) (mul (of_ℕ measured) (sub (of_ℕ 1) (of_ℕ 0)))

  -- The new length of a running pulse of `old_len` frames, from the measured gap; the constants are
  -- the timeout ratio 5, the graduation 0 and the tolerance 1.
  unfoldable pub retuned : (old_len measured : ℕ) → ℕ
  retuned old_len measured =
      if ltb old_len 64
      then clamp_frames measured
      else if lt (of_ℕ measured) (mul (of_ℕ old_len) (of_ℕ 5))
          && lt (sub (of_ℕ 1) (of_ℕ 1))
              (div (of_ℕ (min measured old_len)) (of_ℕ (max measured old_len)))
      then to_u32 (fmax (blended old_len measured) (of_ℕ 1))
      else old_len

  -- A tap that sets the length of a running pulse, if it is to.
  unfoldable pub tune : PulseClock → Bool → PulseClock
  tune c new_len =
      if new_len
      then record c {
        pulse_frames = retuned c.pulse_frames (tap_gap c);
        pulse_prev_tap = c.sample_clock;
      }
      else c

  -- A tap on a running pulse; the half is that of the old length.
  unfoldable pub tap_running : PulseClock → Bool → PulseClock
  tap_running c new_len = reanchor (tune c new_len) (leb c.pulse_frames (c.pulse_position * 2))

  -- `TapPulse`.
  unfoldable pub tap_pulse : PulseClock → Bool → PulseClock
  tap_pulse c new_len =
      if c.pulse_sync_active
      then tap_running (refresh_sync c) new_len
      else if c.pulse_tap_armed
      then tap_armed (refresh_sync c) new_len
      else if new_len
      then record c {
        pulse_tap_armed = true;
        pulse_prev_tap = c.sample_clock;
        pulse_long_count = 0;
        pulse_long_length = 1;
      }
      else c

-- `ClearPulse`.
unfoldable pub clear_pulse : PulseClock → PulseClock
clear_pulse c =
    let stopped =
      if (c.pulse_sync_active || c.pulse_tap_armed) && c.midi_sync_transmit
      then record c { sent = midi_transport_output false ∷ c.sent; clock_run = ClockRun.none }
      else c in
    record stopped {
      pulse_sync_active = false;
      pulse_long_count = 0;
      pulse_long_length = 1;
      pulse_tap_armed = false;
      pulse_prev_tap = 0;
    }

-- The clock after `DeletePulse`, which stops without a MIDI message.
unfoldable pub delete_pulse : PulseClock → PulseClock
delete_pulse c = record c {
  pulse_sync_active = false;
  pulse_long_count = 0;
  pulse_long_length = 1;
  pulse_tap_armed = false;
  pulse_prev_tap = 0;
  clock_run = ClockRun.none;
}
