-- ===== src/Engine/Runtime/Change.antt =====
-- src/native_dsp_graph.rs: the commands that change a loop without its frames, in a well-formed engine.
use freewheeling_plus.Prelude.{
  ℕ, ◌≤◌, ◌<◌, ◌≡◌, refl, max, Bool, true, false, some, ltb, length, length-set, get_elem?, All-get,
  if◌then◌else◌, arith, Option-cases, inl, inr,
}
use freewheeling_plus.Prelude.Options.{keep_if-some}
use freewheeling_plus.Prelude.Words.{u32_max}
use freewheeling_plus.Prelude.Floats.{Float32}
use freewheeling_plus.Engine.Command.{RuntimeCommand}
use freewheeling_plus.Engine.Blocks.{BlockPool}
use freewheeling_plus.Engine.Pulse.{PulseClock}
use freewheeling_plus.Engine.Pulse.InStep.{pulse_synced_loop_position-lt}
use freewheeling_plus.Engine.Loop.{LoopSlot}
use freewheeling_plus.Engine.Runtime.{Engine, Recorder, put_loop, reject}
use freewheeling_plus.Engine.Runtime.Loops.{
  filled, start_position, count_in, trigger, change_filled, set_trigger_gain, set_loop_gain,
  adjust_loop_gain, adjust_loop_gain_delta, mute,
}
use freewheeling_plus.Engine.Runtime.Room.{IsKept}
use freewheeling_plus.Engine.Runtime.Valid.{
  IsLoop, IsEngine, put_loop-IsEngine, send_status-IsEngine, ended-position, changed-IsLoop,
}

module _ {F : Type 0} where
  start_position-lt : (c : PulseClock) (s : LoopSlot F) → 0 < s.len → start_position c s < s.len
  unfolding start_position
  start_position-lt c s h = ground (
    arith,
    pulse_synced_loop_position-lt c.pulse_frames c.pulse_position c.pulse_long_count s.pulse_beats
        s.len s.capture_alignment_frames h,
  )

  count_in-position :
      (c : PulseClock) (s : LoopSlot F) → (count_in c s).pulse_position ≡ c.pulse_position
  unfolding count_in
  count_in-position c s = ended-position c (max s.pulse_beats 1) true s.pulse_synced

  -- A change of a loop with frames that keeps its storage and its frames, and leaves it at one.
  pub IsGentle : (LoopSlot F → LoopSlot F) → Type 0
  IsGentle change =
      (s : LoopSlot F)
      → 0 < s.len
      → s.position < s.len
      → IsKept s (change s) × ((change s).position < (change s).len)

module _ {F : Type 0} {P : BlockPool F} where
  -- A new clock and a new recorder.
  pub renewed-IsEngine :
      (e : Engine P) (c : PulseClock) (r : Recorder)
      → IsEngine e
      → ((i : ℕ) → r.recording ≡ some i → i < length e.loops)
      → c.pulse_position ≤ u32_max
      → IsEngine (record e { clock = c; recorder = r })
  renewed-IsEngine e c r v inside phase = record {
    pool_valid = v.pool_valid;
    loops_valid = v.loops_valid;
    recorded = inside;
    phase_fits = phase;
    history_level = v.history_level;
    history_fits = v.history_fits;
    transfers_valid = v.transfers_valid;
  }

  -- An engine is well formed whichever way a test goes.
  pub if_both :
      {e t : Engine P} (b : Bool) → IsEngine e → IsEngine t → IsEngine (if b then e else t)
  if_both true v w = v
  if_both false v w = w

  pub reject-IsEngine :
      (e : Engine P) (command : RuntimeCommand F) → IsEngine e → IsEngine (reject e command)
  unfolding reject
  reject-IsEngine e command v = send_status-IsEngine e _ v

  pub filled-IsLoop :
      (e : Engine P) (slot : ℕ) (s : LoopSlot F)
      → IsEngine e
      → filled e.loops slot ≡ some s
      → (get_elem? e.loops slot ≡ some s) × (0 < s.len) × IsLoop s
  unfolding filled
  filled-IsLoop e slot s v h =
      let k = keep_if-some (λ (x : LoopSlot F). ltb 0 x.len) (get_elem? e.loops slot) s h in
      (k.0, ground (arith, k.1), All-get IsLoop e.loops slot s v.loops_valid k.0)

  -- A loop that starts to play, and the long count with it.
  pub playing-IsEngine :
      (e : Engine P) (slot : ℕ) (s t : LoopSlot F) (r : Recorder)
      → IsEngine e
      → filled e.loops slot ≡ some s
      → IsKept s t
      → t.len ≡ s.len
      → t.position ≡ start_position e.clock s
      → ((i : ℕ) → r.recording ≡ some i → i < length e.loops)
      → IsEngine (record (put_loop e slot t) { clock = count_in e.clock s; recorder = r })
  unfolding put_loop
  playing-IsEngine e slot s t r v h k same at inside =
      let found = filled-IsLoop e slot s v h in
      let lt = start_position-lt e.clock s found.1 in
      let changed = changed-IsLoop s t found.2 k (λ p. omega (arith, at, lt, same)) in
      renewed-IsEngine (put_loop e slot t) (count_in e.clock s) r
        (put_loop-IsEngine e slot t v changed)
        (λ i p. omega (arith, inside i p, length-set e.loops slot t))
        (omega (arith, v.phase_fits, count_in-position e.clock s))

module _ (f : Float32) (P : BlockPool f.F) where
  open f use {F, of_ℕ}

  pub change_filled-IsEngine :
      (e : Engine P) (command : RuntimeCommand F) (slot : ℕ) (change : LoopSlot F → LoopSlot F)
      → IsEngine e
      → IsGentle change
      → IsEngine (change_filled f P e command slot change)
  unfolding change_filled IsGentle
  change_filled-IsEngine e command slot change v g = elim (Option-cases (filled e.loops slot)) [
    | inl n ↦ rw (n, change_filled) (reject-IsEngine e command v)
    | inr s ↦
        let found = filled-IsLoop e slot s.0 v s.1 in
        let k = g s.0 found.1 (found.2.placed found.1) in
        rw (s.1, change_filled)
          (put_loop-IsEngine e slot (change s.0) v
            (changed-IsLoop s.0 (change s.0) found.2 k.0 (λ _. k.1)))
  ]

  pub trigger-IsEngine :
      (e : Engine P) (command : RuntimeCommand F) (slot : ℕ) (gain : F)
      → IsEngine e
      → IsEngine (trigger f P e command slot gain)
  unfolding trigger put_loop
  trigger-IsEngine e command slot gain v = elim (Option-cases (filled e.loops slot)) [
    | inl n ↦ rw (n, trigger) (reject-IsEngine e command v)
    | inr s ↦
        rw (s.1, trigger)
          (playing-IsEngine e slot s.0 _ e.recorder v s.1
            (record {
              left = refl;
              right = refl;
              blocks = refl;
              data_offset = refl;
              len = omega arith;
            })
            refl refl v.recorded)
  ]

  pub set_trigger_gain-IsGentle : (gain : F) → IsGentle (set_trigger_gain f P gain)
  unfolding IsGentle set_trigger_gain
  set_trigger_gain-IsGentle gain s h p = (
    record { left = refl; right = refl; blocks = refl; data_offset = refl; len = omega arith },
    p,
  )

  pub set_loop_gain-IsGentle : (gain : F) → IsGentle (set_loop_gain f P gain)
  unfolding IsGentle set_loop_gain
  set_loop_gain-IsGentle gain s h p = (
    record { left = refl; right = refl; blocks = refl; data_offset = refl; len = omega arith },
    p,
  )

  pub adjust_loop_gain-IsGentle : (factor : F) → IsGentle (adjust_loop_gain f P factor)
  unfolding IsGentle adjust_loop_gain
  adjust_loop_gain-IsGentle factor s h p = (
    record { left = refl; right = refl; blocks = refl; data_offset = refl; len = omega arith },
    p,
  )

  pub adjust_loop_gain_delta-IsGentle : (amount : F) → IsGentle (adjust_loop_gain_delta f P amount)
  unfolding IsGentle adjust_loop_gain_delta
  adjust_loop_gain_delta-IsGentle amount s h p = (
    record { left = refl; right = refl; blocks = refl; data_offset = refl; len = omega arith },
    p,
  )

  pub mute-IsGentle : (silent : Bool) → IsGentle (mute f P silent)
  unfolding IsGentle mute
  mute-IsGentle silent s h p = (
    record { left = refl; right = refl; blocks = refl; data_offset = refl; len = omega arith },
    ground arith,
  )
