-- ===== src/Engine/Runtime/Spare.antt =====
-- src/native_dsp_graph.rs: which loops a command leaves alone.
use mathlib.Core.Option.{some-injective}
use freewheeling_plus.Prelude.{
  ℕ, ◌≡◌, ◌≢◌, refl, sym, ◌∙◌, subst, Bool, true, false, some, ltb, get_elem?, get_elem?-map,
  Option-cases, inl, inr,
}
use freewheeling_plus.Prelude.Options.{keep_if-some}
use freewheeling_plus.Prelude.Floats.{Float32}
use freewheeling_plus.Engine.Command.{RuntimeCommand}
use freewheeling_plus.Engine.Blocks.{BlockPool}
use freewheeling_plus.Engine.Loop.{LoopSlot}
use freewheeling_plus.Engine.Runtime.{
  Engine, put_loop, send_status, reject, is_recording, is_overdubbing,
}
use freewheeling_plus.Engine.Runtime.Loops.{
  filled, overdub_stopped, overdub, trigger, change_filled, set_trigger_gain, set_loop_gain,
  adjust_loop_gain, adjust_loop_gain_delta, mute, reset_gain_delta, reset_loop_gain_deltas,
}
use freewheeling_plus.Engine.Runtime.Valid.{IsEngine}
use freewheeling_plus.Engine.Runtime.Keep.{
  is_busy, IsUntouched, Keeps, Keeps-trans, same-Keeps, other-Keeps, set-Keeps,
}
use freewheeling_plus.Engine.Runtime.Stop.{stop_recording-IsStopped}

-- A change of a loop that leaves its storage alone.
pub IsCalm : {F : Type 0} → (LoopSlot F → LoopSlot F) → Type 0
IsCalm {F} change = (s : LoopSlot F) → is_busy s ≡ false → IsUntouched s (change s)

module _ {F : Type 0} {P : BlockPool F} where
  -- The loop at `k` keeps its storage, if it is not recorded.
  unfoldable pub Spares : ℕ → Engine P → Engine P → Type 0
  Spares k e t = Keeps k e.loops t.loops

  pub same-Spares : (k : ℕ) (e t : Engine P) → t.loops ≡ e.loops → Spares k e t
  unfolding Spares
  same-Spares k e t h = same-Keeps k e.loops t.loops h

  pub filled_at :
      (e : Engine P) (slot : ℕ) (s : LoopSlot F)
      → filled e.loops slot ≡ some s
      → get_elem? e.loops slot ≡ some s
  unfolding filled
  filled_at e slot s h =
      (keep_if-some (λ (x : LoopSlot F). ltb 0 x.len) (get_elem? e.loops slot) s h).0

module _ (f : Float32) (P : BlockPool f.F) (k : ℕ) where
  open f use {F}

  overdub_stopped-Spares :
      (e : Engine P) (command : RuntimeCommand F) (slot : ℕ) (feedback gain : F)
      → slot ≢ k
      → Spares k e (overdub_stopped f P e command slot feedback gain)
  unfolding overdub_stopped Spares put_loop reject send_status
  overdub_stopped-Spares e command slot feedback gain ne =
      elim (Option-cases (filled e.loops slot)) [
        | inl n ↦ rw (n, overdub_stopped) (same-Keeps k e.loops e.loops refl)
        | inr s ↦ rw (s.1, overdub_stopped) (other-Keeps k slot e.loops _ ne)
      ]

  pub overdub-Spares :
      (e t : Engine P) (command : RuntimeCommand F) (slot : ℕ) (feedback gain : F)
      → IsEngine e
      → slot ≢ k
      → overdub f P e command slot feedback gain ≡ some t
      → Spares k e t
  unfolding overdub Spares
  overdub-Spares e t command slot feedback gain v ne h =
      let a = stop_recording-IsStopped f P e true v in
      let same : t ≡ overdub_stopped f P a.0 command slot feedback gain =
        some-injective _ _ (sym h ∙ (rw a.1 refl)) in
      subst (λ (x : Engine P). Keeps k e.loops x.loops) (sym same)
        (Keeps-trans k e.loops a.0.loops _ (a.3 k)
          (overdub_stopped-Spares a.0 command slot feedback gain ne))

  pub trigger-Spares :
      (e : Engine P) (command : RuntimeCommand F) (slot : ℕ) (gain : F)
      → Spares k e (trigger f P e command slot gain)
  unfolding trigger Spares put_loop reject send_status is_busy is_recording is_overdubbing
  trigger-Spares e command slot gain = elim (Option-cases (filled e.loops slot)) [
    | inl n ↦ rw (n, trigger) (same-Keeps k e.loops e.loops refl)
    | inr s ↦
        rw (s.1, trigger)
          (set-Keeps k slot e.loops s.0 _ (filled_at e slot s.0 s.1) (λ i. record {
            left = refl;
            right = refl;
            blocks = refl;
            data_offset = refl;
            idle = refl;
          }))
  ]

  pub change_filled-Spares :
      (e : Engine P) (command : RuntimeCommand F) (slot : ℕ) (change : LoopSlot F → LoopSlot F)
      → IsCalm change
      → Spares k e (change_filled f P e command slot change)
  unfolding change_filled Spares put_loop reject send_status IsCalm
  change_filled-Spares e command slot change c = elim (Option-cases (filled e.loops slot)) [
    | inl n ↦ rw (n, change_filled) (same-Keeps k e.loops e.loops refl)
    | inr s ↦
        rw (s.1, change_filled)
          (set-Keeps k slot e.loops s.0 (change s.0) (filled_at e slot s.0 s.1) (λ i. c s.0 i))
  ]

  pub set_trigger_gain-IsCalm : (gain : F) → IsCalm (set_trigger_gain f P gain)
  unfolding IsCalm set_trigger_gain is_busy
  set_trigger_gain-IsCalm gain s i = record {
    left = refl;
    right = refl;
    blocks = refl;
    data_offset = refl;
    idle = i;
  }

  pub set_loop_gain-IsCalm : (gain : F) → IsCalm (set_loop_gain f P gain)
  unfolding IsCalm set_loop_gain is_busy
  set_loop_gain-IsCalm gain s i = record {
    left = refl;
    right = refl;
    blocks = refl;
    data_offset = refl;
    idle = i;
  }

  pub adjust_loop_gain-IsCalm : (factor : F) → IsCalm (adjust_loop_gain f P factor)
  unfolding IsCalm adjust_loop_gain is_busy
  adjust_loop_gain-IsCalm factor s i = record {
    left = refl;
    right = refl;
    blocks = refl;
    data_offset = refl;
    idle = i;
  }

  pub adjust_loop_gain_delta-IsCalm : (amount : F) → IsCalm (adjust_loop_gain_delta f P amount)
  unfolding IsCalm adjust_loop_gain_delta is_busy
  adjust_loop_gain_delta-IsCalm amount s i = record {
    left = refl;
    right = refl;
    blocks = refl;
    data_offset = refl;
    idle = i;
  }

  pub mute-IsCalm : (silent : Bool) → IsCalm (mute f P silent)
  unfolding IsCalm mute is_busy is_recording is_overdubbing
  mute-IsCalm true s i = record {
    left = refl;
    right = refl;
    blocks = refl;
    data_offset = refl;
    idle = refl;
  }
  mute-IsCalm false s i = record {
    left = refl;
    right = refl;
    blocks = refl;
    data_offset = refl;
    idle = refl;
  }

  pub reset_loop_gain_deltas-Spares : (e : Engine P) → Spares k e (reset_loop_gain_deltas f P e)
  unfolding Spares reset_loop_gain_deltas reset_gain_delta Keeps is_busy
  reset_loop_gain_deltas-Spares e s at i = (
    reset_gain_delta f P s,
    get_elem?-map (reset_gain_delta f P) e.loops k ∙ (rw at refl),
    record { left = refl; right = refl; blocks = refl; data_offset = refl; idle = i },
  )
