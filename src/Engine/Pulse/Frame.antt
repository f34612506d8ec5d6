-- ===== src/Engine/Pulse/Frame.antt =====
-- src/native_dsp_graph.rs: the end of each frame in `process`, where the pulse advances by one frame
-- and transmits the MIDI clock.
use freewheeling_plus.Prelude.{
  ℕ, zero, suc, ◌+◌, ◌%◌, max, Bool, true, false, not, ◌&&◌, ◌||◌, ◌∷◌, ◌==◌, leb, if◌then◌else◌,
}
use freewheeling_plus.Prelude.Int.{ℤ, pos, pos_part, neg_part, ◌*ℤ◌}
use freewheeling_plus.Prelude.Words.{usize_max, sat_add, wrap_i32, div_ℤ}
use freewheeling_plus.Prelude.Floats.{Float32}
use freewheeling_plus.Engine.Pulse.{PulseClock, ClockRun, midi_clock_tick, midi_transport_output}

-- The offsets of the metronome's three sounds move on.
unfoldable pub advance_metronome : PulseClock → PulseClock
advance_metronome c = record c {
  metro_noise_offset = sat_add usize_max c.metro_noise_offset 1;
  metro_hi_offset = sat_add usize_max c.metro_hi_offset 1;
  metro_lo_offset = sat_add usize_max c.metro_lo_offset 1;
}

-- The pulse wraps at its length, and the long count at the long length.
unfoldable pub wrap_pulse : PulseClock → PulseClock
wrap_pulse c =
    if leb c.pulse_frames c.pulse_position
    then record c {
      pulse_position = 0;
      pulse_long_count = (c.pulse_long_count + 1) % max c.pulse_long_length 1;
      metro_noise_offset = 0;
    }
    else c

unfoldable pub is_off : ClockRun → Bool
is_off ClockRun.none = true
is_off _ = false

unfoldable pub is_starting : ClockRun → Bool
is_starting ClockRun.start = true
is_starting _ = false

unfoldable pub is_running : ClockRun → Bool
is_running ClockRun.beat = true
is_running _ = false

unfoldable pub eqb_ℤ : ℤ → ℤ → Bool
eqb_ℤ a b = pos_part a == pos_part b && neg_part a == neg_part b

unfoldable pub leb_ℤ : ℤ → ℤ → Bool
leb_ℤ a b = leb (pos_part a + neg_part b) (pos_part b + neg_part a)

-- `24 * sync_speed * if sync_type { 1 } else { 4 }`.
unfoldable pub clocks_per_pulse : PulseClock → ℤ
clocks_per_pulse c =
    wrap_i32 (wrap_i32 (pos 24 *ℤ c.sync_speed) *ℤ (if c.sync_type then pos 1 else pos 4))

-- One clock of 24 per beat: the counters, and the metronome sound that the beat starts.
unfoldable pub count_clock : PulseClock → ℤ → PulseClock
count_clock c clocks =
    if leb 24 (c.midi_clock_count + 1)
    then (if leb_ℤ (div_ℤ clocks 24) (pos (c.midi_beat_count + 1))
        then record c { midi_clock_count = 0; midi_beat_count = 0; metro_hi_offset = 0 }
        else record c {
          midi_clock_count = 0;
          midi_beat_count = c.midi_beat_count + 1;
          metro_lo_offset = 0;
        })
    else record c { midi_clock_count = c.midi_clock_count + 1 }

-- What a crossed clock boundary or a wrap sends.
unfoldable pub send_clock : PulseClock → ℤ → PulseClock
send_clock c clocks =
    if is_starting c.clock_run
    then record c {
      metro_hi_offset = 0;
      midi_clock_count = 0;
      midi_beat_count = 0;
      sent = midi_transport_output true ∷ c.sent;
      clock_run = ClockRun.beat;
    }
    else let counted = count_clock c clocks in record counted { sent = midi_clock_tick ∷ c.sent }

module _ (f : Float32) where
  open f use {of_ℕ, of_ℤ, div, to_i32}

  -- `(position as f32 / frames_per_clock) as i32`.
  unfoldable pub clock_at : PulseClock → ℕ → ℤ
  clock_at c position =
      to_i32 (div (of_ℕ position) (div (of_ℕ c.pulse_frames) (of_ℤ (clocks_per_pulse c))))

  -- `pulse_position` has already moved on from `old_position`.
  unfoldable pub transmit_clock : PulseClock → ℕ → PulseClock
  transmit_clock c old_position =
      if c.pulse_sync_active && not (is_off c.clock_run) && c.midi_sync_transmit
      then (let crossed =
            is_running c.clock_run
            && not (eqb_ℤ (clock_at c c.pulse_position) (clock_at c old_position)) in
          if crossed || leb c.pulse_frames c.pulse_position
          then send_clock c (clocks_per_pulse c)
          else c)
      else c

  unfoldable pub advance_frame : PulseClock → PulseClock
  advance_frame c =
      let moved = advance_metronome c in
      wrap_pulse
        (transmit_clock (record moved { pulse_position = c.pulse_position + 1 }) c.pulse_position)

  -- The frames of a run of callbacks.
  unfoldable pub advance_frames : ℕ → PulseClock → PulseClock
  advance_frames zero c = c
  advance_frames (suc n) c = advance_frames n (advance_frame c)
