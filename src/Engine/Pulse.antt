-- ===== src/Engine/Pulse.antt =====
-- src/native_dsp_graph.rs: the pulse clock of `RuntimeAudioProcessor`. `PulseClock` has the fields
-- that the pulse commands and the end of each frame read and write; `sent` lists the statuses that
-- they try to send, newest first. Frame counts are `u32`, the sample clock is a `u64`.
pub mod Gcd
pub mod LongCount
pub mod Commands
pub mod Frame
pub mod Valid
pub mod Steps
pub mod Phase
pub mod InStep
mod Tests
use mathlib.Core.WellFounded.{Acc}
use mathlib.Core.Logic.{dite}
use freewheeling_plus.Prelude.Order.{lt_wf}
use freewheeling_plus.Prelude.{
  ℕ, ◌+◌, ◌-◌, ◌*◌, ◌/◌, ◌%◌, ◌<◌, max, min, Bool, true, false, not, ◌&&◌, ◌||◌, List, ◌==◌, ltb,
  leb, if◌then◌else◌, arith, dec_lt,
}
use freewheeling_plus.Prelude.Int.{ℤ}
use freewheeling_plus.Prelude.Words.{sat_add, sat_mul, u32_max, usize_max}

-- `ClockRun`: whether MIDI clock transmission is off, waits for the first downbeat, or runs.
pub data ClockRun : Type 0 where
  none start beat : ClockRun

-- The statuses of the pulse clock.
pub data PulseStatus : Type 0 where
  midi_clock_tick : PulseStatus
  midi_transport_output : Bool → PulseStatus

pub record PulseClock : Type 0 where
  pub sample_clock : ℕ
  pub pulse_frames : ℕ
  pub pulse_position : ℕ
  pub pulse_long_count : ℕ
  pub pulse_long_length : ℕ
  pub pulse_subdivide : ℕ
  pub pulse_sync_active : Bool
  pub pulse_prev_tap : ℕ
  pub pulse_tap_armed : Bool
  pub pulse_downbeat_suppressed : Bool
  pub midi_sync_transmit : Bool
  pub clock_run : ClockRun
  pub midi_clock_count : ℕ
  pub midi_beat_count : ℕ
  pub sync_speed : ℤ
  pub sync_type : Bool
  pub sample_rate : ℕ
  pub metro_noise_offset : ℕ
  pub metro_hi_offset : ℕ
  pub metro_lo_offset : ℕ
  pub sent : List PulseStatus

-- The loop of `gcd_u32`: `while right != 0 { (left, right) = (right, left % right) }`.
pub gcd_loop : (left right : ℕ) → Acc ◌<◌ right → ℕ
gcd_loop left right (Acc.intro _ smaller) =
    dite (dec_lt 0 right)
      (λ h. gcd_loop right (left % right) (smaller (left % right) (omega arith))) (λ _. left)

unfoldable pub gcd_u32 : ℕ → ℕ → ℕ
unfolding gcd_loop lt_wf dec_lt
gcd_u32 left right = max (gcd_loop left right (lt_wf.apply right)) 1

unfoldable pub pulse_synced_loop_position :
    (pulse_frames pulse_position pulse_long_count pulse_beats loop_len capture_alignment_frames : ℕ)
    → ℕ
pulse_synced_loop_position frames position long_count beats loop_len alignment =
    if loop_len == 0 || beats == 0
    then 0
    else sat_add usize_max (sat_add usize_max (long_count % beats * max frames 1) position)
        alignment
      % loop_len

-- `extend_pulse_long_count`.
unfoldable pub extend_pulse_long_count : PulseClock → ℕ → Bool → PulseClock
extend_pulse_long_count c beats end_justify =
    if beats == 0 || not c.pulse_sync_active
    then c
    else let old_length = max c.pulse_long_length 1 in
      let new_length = max (sat_mul u32_max (old_length / gcd_u32 old_length beats) beats) 1 in
      let end_delta = old_length - c.pulse_long_count % old_length in
      record c {
        pulse_long_count =
            if end_justify && ltb old_length new_length
            then new_length - end_delta
            else c.pulse_long_count;
        pulse_long_length = new_length;
      }
