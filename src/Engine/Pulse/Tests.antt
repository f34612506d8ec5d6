-- ===== src/Engine/Pulse/Tests.antt =====
-- src/native_dsp_graph.rs: the pulse clock at small numbers.
use Prim.Native.Nat.{◌∣◌}
use native.Mathlib.Nat
use freewheeling_plus.Prelude.{ℕ, ◌+◌, ◌*◌, ◌%◌, ◌<◌, ◌≤◌, ◌≡◌, refl, true, false, [], arith}
use freewheeling_plus.Prelude.Int.{pos}
use freewheeling_plus.Prelude.Words.{u32_max}
use freewheeling_plus.Prelude.Floats.{whole_floats}
use freewheeling_plus.Engine.Pulse.{PulseClock, ClockRun, gcd_u32, extend_pulse_long_count}
use freewheeling_plus.Engine.Pulse.Gcd.{gcd_u32_greatest}
use freewheeling_plus.Engine.Pulse.LongCount.{
  lcm_of, extend_pulse_long_count-lcm, extend_pulse_long_count-bounded,
}
use freewheeling_plus.Engine.Pulse.Frame.{advance_frame, advance_frames}
use freewheeling_plus.Engine.Pulse.Valid.{IsValid}
use freewheeling_plus.Engine.Pulse.Steps.{step, clock_step-IsValid, taps}
use freewheeling_plus.Engine.Pulse.Phase.{phase, cycle, advance_frames-phase}
use freewheeling_plus.Engine.Pulse.InStep.{loop_position, advance_frame-loop_position}

-- A pulse of 480 frames, in the last frame of the fourth beat of six.
abbrev sample : PulseClock
sample = record {
  sample_clock = 10000;
  pulse_frames = 480;
  pulse_position = 479;
  pulse_long_count = 3;
  pulse_long_length = 6;
  pulse_subdivide = 1;
  pulse_sync_active = true;
  pulse_prev_tap = 9000;
  pulse_tap_armed = false;
  pulse_downbeat_suppressed = false;
  midi_sync_transmit = true;
  clock_run = ClockRun.start;
  midi_clock_count = 0;
  midi_beat_count = 0;
  sync_speed = pos 1;
  sync_type = false;
  sample_rate = 48000;
  metro_noise_offset = 0;
  metro_hi_offset = 0;
  metro_lo_offset = 0;
  sent = [];
}

sample-IsValid : IsValid sample
sample-IsValid = record {
  counted = omega arith;
  length_fits = omega arith;
  placed = λ _. omega arith;
  frames_fit = omega arith;
}

gcd_of_six_and_four : gcd_u32 6 4 ≡ 2
unfolding gcd_u32
gcd_of_six_and_four = refl

gcd_u32_greatest_example :
    (gcd_u32 6 4 ∣ 6)
    × (gcd_u32 6 4 ∣ 4)
    × ((k c : ℕ) → k ∣ 6 * c → k ∣ 4 * c → k ∣ gcd_u32 6 4 * c)
gcd_u32_greatest_example = gcd_u32_greatest 6 4 (omega arith)

lcm_of_six_and_four : lcm_of 6 4 ≤ u32_max
unfolding lcm_of gcd_u32
lcm_of_six_and_four = omega arith

extend_pulse_long_count-lcm_example :
    (6 ∣ (extend_pulse_long_count sample 4 true).pulse_long_length)
    × (4 ∣ (extend_pulse_long_count sample 4 true).pulse_long_length)
    × ((m : ℕ) → 6 ∣ m → 4 ∣ m → (extend_pulse_long_count sample 4 true).pulse_long_length ∣ m)
extend_pulse_long_count-lcm_example =
    extend_pulse_long_count-lcm sample 4 true refl (omega arith) (omega arith) lcm_of_six_and_four

extend_pulse_long_count-bounded_example :
    ((extend_pulse_long_count sample 4 true).pulse_long_count
      < (extend_pulse_long_count sample 4 true).pulse_long_length)
    × ((extend_pulse_long_count sample 4 true).pulse_long_length ≤ u32_max)
extend_pulse_long_count-bounded_example =
    extend_pulse_long_count-bounded sample 4 true (omega arith) (omega arith)

clock_step-IsValid_example : IsValid (step whole_floats sample (taps true))
clock_step-IsValid_example = clock_step-IsValid whole_floats sample (taps true) sample-IsValid tt

advance_frames-phase_example :
    phase (advance_frames whole_floats 1000 sample) ≡ (phase sample + 1000) % cycle sample
advance_frames-phase_example = advance_frames-phase whole_floats 1000 sample sample-IsValid refl

two-dvd-six : 2 ∣ 6
two-dvd-six = Nat.dvd-mul_left 2 3

advance_frame-loop_position_example :
    loop_position (advance_frame whole_floats sample) 2 (480 * 2) 100
    ≡ (loop_position sample 2 (480 * 2) 100 + 1) % (480 * 2)
advance_frame-loop_position_example =
    advance_frame-loop_position whole_floats sample 2 100 sample-IsValid refl (omega arith)
      (omega arith) (omega arith) two-dvd-six
