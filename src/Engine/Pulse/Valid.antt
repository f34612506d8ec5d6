-- ===== src/Engine/Pulse/Valid.antt =====
-- src/native_dsp_graph.rs: the invariant of the pulse clock over commands and frames.
use native.Mathlib.Nat
use freewheeling_plus.Prelude.{
  ℕ, ◌*◌, ◌/◌, ◌<◌, ◌≤◌, ◌≡◌, max, min, Bool, true, false, leb, if◌then◌else◌, arith, Bool-cases,
  inl, inr,
}
use freewheeling_plus.Prelude.Words.{u32_max}
use freewheeling_plus.Prelude.Floats.{Float32}
use freewheeling_plus.Engine.Pulse.{PulseClock}
use freewheeling_plus.Engine.Pulse.Commands.{
  set_pulse, set_pulse_from_loop, tap_pulse, tap_running, tune, tap_armed, reanchor, refresh_sync,
  retuned, blended, tap_gap, clamp_frames,
}

-- The long count is below the long length; where pulse sync is on, the position is below the pulse
-- length.
pub record IsValid (c : PulseClock) : Type 0 where
  pub counted : c.pulse_long_count < c.pulse_long_length
  pub length_fits : c.pulse_long_length ≤ u32_max
  pub placed : c.pulse_sync_active ≡ true → c.pulse_position < c.pulse_frames
  pub frames_fit : c.pulse_frames ≤ u32_max

pub set_pulse-IsValid :
    (c : PulseClock) (frames : ℕ) → frames ≤ u32_max → IsValid (set_pulse c frames)
unfolding set_pulse
set_pulse-IsValid c frames h = record {
  counted = omega arith;
  length_fits = omega arith;
  placed = λ _. omega arith;
  frames_fit = omega arith;
}

pub set_pulse_from_loop-IsValid :
    (c : PulseClock) (len position : ℕ) → IsValid (set_pulse_from_loop c len position)
unfolding set_pulse_from_loop
set_pulse_from_loop-IsValid c len position = record {
  counted = omega arith;
  length_fits = omega arith;
  placed = λ _.
      Nat.mod-lt position {m = min (max (len / max c.pulse_subdivide 1) 1) u32_max} (omega arith);
  frames_fit = omega arith;
}

refresh_sync-IsValid : (c : PulseClock) → IsValid c → IsValid (refresh_sync c)
unfolding refresh_sync
refresh_sync-IsValid c v = ground arith

refresh_sync_frames :
    (c : PulseClock) → c.pulse_position < c.pulse_frames → 0 < (refresh_sync c).pulse_frames
unfolding refresh_sync
refresh_sync_frames c h = ground arith

refresh_sync_active :
    (c : PulseClock) → c.pulse_sync_active ≡ false → (refresh_sync c).pulse_sync_active ≡ false
unfolding refresh_sync
refresh_sync_active c h = ground arith

-- The first tap arms the pulse.
first_tap :
    (c : PulseClock) (new_len : Bool)
    → IsValid c
    → c.pulse_sync_active ≡ false
    → IsValid (
        if new_len
        then record c {
          pulse_tap_armed = true;
          pulse_prev_tap = c.sample_clock;
          pulse_long_count = 0;
          pulse_long_length = 1;
        }
        else c)
first_tap c true v h = record {
  counted = omega arith;
  length_fits = omega arith;
  placed = v.placed;
  frames_fit = v.frames_fit;
}
first_tap c false v h = v

tap_armed-IsValid :
    (c : PulseClock) (new_len : Bool)
    → IsValid c
    → c.pulse_sync_active ≡ false
    → IsValid (tap_armed c new_len)
unfolding tap_armed clamp_frames
tap_armed-IsValid c true v inactive = record {
  counted = v.counted;
  length_fits = v.length_fits;
  placed = λ _. omega arith;
  frames_fit = omega arith;
}
tap_armed-IsValid c false v inactive = record {
  counted = v.counted;
  length_fits = v.length_fits;
  placed = λ e. ground arith;
  frames_fit = v.frames_fit;
}

reanchor-IsValid :
    (c : PulseClock) (next : Bool)
    → c.pulse_long_count < c.pulse_long_length
    → c.pulse_long_length ≤ u32_max
    → 0 < c.pulse_frames
    → c.pulse_frames ≤ u32_max
    → IsValid (reanchor c next)
unfolding reanchor
reanchor-IsValid c true h l p q = record {
  counted = grind arith;
  length_fits = l;
  placed = λ _. p;
  frames_fit = q;
}
reanchor-IsValid c false h l p q = record {
  counted = h;
  length_fits = l;
  placed = λ _. p;
  frames_fit = q;
}

module _ (f : Float32) where
  open f use {one-le-to_u32, to_u32-le, of_ℕ, max as fmax}

  retuned_range :
      (old measured : ℕ)
      → 0 < old
      → old ≤ u32_max
      → (0 < retuned f old measured) × (retuned f old measured ≤ u32_max)
  unfolding retuned clamp_frames
  retuned_range old measured h l = ground (
    arith,
    one-le-to_u32 (blended f old measured),
    to_u32-le (fmax (blended f old measured) (of_ℕ 1)),
  )

  tap_running-IsValid :
      (c : PulseClock) (new_len : Bool)
      → IsValid c
      → 0 < c.pulse_frames
      → IsValid (tap_running f c new_len)
  unfolding tap_running tune
  tap_running-IsValid c true v p =
      let range = retuned_range c.pulse_frames (tap_gap c) p v.frames_fit in
      reanchor-IsValid (tune f c true) (leb c.pulse_frames (c.pulse_position * 2)) v.counted
        v.length_fits range.0 range.1
  tap_running-IsValid c false v p =
      reanchor-IsValid c (leb c.pulse_frames (c.pulse_position * 2)) v.counted v.length_fits p
        v.frames_fit

  pub tap_pulse-IsValid :
      (c : PulseClock) (new_len : Bool) → IsValid c → IsValid (tap_pulse f c new_len)
  unfolding tap_pulse
  tap_pulse-IsValid c new_len v = elim (Bool-cases c.pulse_sync_active) [
    | inl active ↦ simp active (
        tap_running-IsValid (refresh_sync c) new_len (refresh_sync-IsValid c v)
          (refresh_sync_frames c (v.placed active)))
    | inr stopped ↦ elim (Bool-cases c.pulse_tap_armed) [
      | inl armed ↦
          simp (stopped, armed)
            (tap_armed-IsValid (refresh_sync c) new_len (refresh_sync-IsValid c v)
              (refresh_sync_active c stopped))
      | inr idle ↦ simp (stopped, idle) (simp stopped at (first_tap c new_len v stopped))
    ]
  ]
