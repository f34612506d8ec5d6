-- ===== src/Engine/Runtime/Swap.antt =====
-- src/native_dsp_graph.rs: `ResetLoopGainDeltas`, `Overdub` and `MoveLoop` in a well-formed engine.
use freewheeling_plus.Prelude.{
  ℕ, ◌<◌, ◌≡◌, refl, ◌∙◌, subst, true, not, ◌||◌, Option, some, List, [], ◌∷◌, map, ◌==◌, length,
  length-set, length-map, set, get_elem?, get_elem?-lt, All, All-get, All-set, arith, Bool-cases,
  Option-cases, inl, inr,
}
use mathlib.Core.Option.{some-injective}
use freewheeling_plus.Prelude.Floats.{Float32}
use freewheeling_plus.Engine.Command.{RuntimeCommand}
use freewheeling_plus.Engine.Blocks.{BlockPool}
use freewheeling_plus.Engine.Loop.{LoopSlot}
use freewheeling_plus.Engine.Runtime.{Engine, put_loop}
use freewheeling_plus.Engine.Runtime.Recording.{stop_recording}
use freewheeling_plus.Engine.Runtime.Loops.{
  filled, overdub_stopped, overdub, reset_gain_delta, reset_loop_gain_deltas, swapped, is_slot,
  swap_loops, move_loop,
}
use freewheeling_plus.Engine.Runtime.Valid.{IsLoop, IsEngine, changed-IsLoop}
use freewheeling_plus.Engine.Runtime.Stop.{stop_recording-IsStopped}
use freewheeling_plus.Engine.Runtime.Change.{
  if_both, reject-IsEngine, filled-IsLoop, playing-IsEngine,
}

module _ (f : Float32) (P : BlockPool f.F) where
  open f use {F, of_ℕ}
  open P use {Pool, IsPool, ready, room, add_block, release_blocks}

  reset-All : (ss : List (LoopSlot F)) → All IsLoop ss → All IsLoop (map (reset_gain_delta f P) ss)
  unfolding reset_gain_delta
  reset-All [] v = tt
  reset-All (s ∷ ss) v = (
    changed-IsLoop s _ v.0
        (record { left = refl; right = refl; blocks = refl; data_offset = refl; len = omega arith })
        v.0.placed,
    reset-All ss v.1,
  )

  pub reset_loop_gain_deltas-IsEngine :
      (e : Engine P) → IsEngine e → IsEngine (reset_loop_gain_deltas f P e)
  unfolding reset_loop_gain_deltas
  reset_loop_gain_deltas-IsEngine e v = record {
    pool_valid = v.pool_valid;
    loops_valid = reset-All e.loops v.loops_valid;
    recorded = λ i h. omega (arith, v.recorded i h, length-map e.loops (reset_gain_delta f P));
    phase_fits = v.phase_fits;
    history_level = v.history_level;
    history_fits = v.history_fits;
    transfers_valid = v.transfers_valid;
  }

  overdub_turn :
      (e t : Engine P) (command : RuntimeCommand F) (slot : ℕ) (feedback gain : F)
      → stop_recording f P e true ≡ some t
      → overdub f P e command slot feedback gain
        ≡ some (overdub_stopped f P t command slot feedback gain)
  unfolding overdub
  overdub_turn e t command slot feedback gain h = rw h refl

  overdub_stopped-IsEngine :
      (e : Engine P) (command : RuntimeCommand F) (slot : ℕ) (feedback gain : F)
      → IsEngine e
      → IsEngine (overdub_stopped f P e command slot feedback gain)
  unfolding overdub_stopped put_loop
  overdub_stopped-IsEngine e command slot feedback gain v =
      elim (Option-cases (filled e.loops slot)) [
        | inl n ↦ rw (n, overdub_stopped) (reject-IsEngine e command v)
        | inr s ↦
            let found = filled-IsLoop e slot s.0 v s.1 in
            rw (s.1, overdub_stopped)
              (playing-IsEngine e slot s.0 _ (record e.recorder { recording = some slot }) v s.1
                (record {
                  left = refl;
                  right = refl;
                  blocks = refl;
                  data_offset = refl;
                  len = omega arith;
                })
                refl refl
                (λ i r.
                  subst (λ n. n < length e.loops) (some-injective slot i r)
                    (get_elem?-lt e.loops slot found.0)))
      ]

  pub overdub-IsEngine :
      (e : Engine P) (command : RuntimeCommand F) (slot : ℕ) (feedback gain : F)
      → IsEngine e
      → (t : Engine P) × (overdub f P e command slot feedback gain ≡ some t) × IsEngine t
  overdub-IsEngine e command slot feedback gain v =
      let a = stop_recording-IsStopped f P e true v in
      (
        overdub_stopped f P a.0 command slot feedback gain,
        overdub_turn e a.0 command slot feedback gain a.1,
        overdub_stopped-IsEngine a.0 command slot feedback gain a.2.valid,
      )

  swapped-lt :
      (source target n : ℕ) (r : Option ℕ)
      → source < n
      → target < n
      → ((i : ℕ) → r ≡ some i → i < n)
      → (i : ℕ) → swapped source target r ≡ some i
      → i < n
  unfolding swapped
  swapped-lt source target n r s t h i e = elim (Bool-cases (is_slot r source)) [
    | inl a ↦ let k : target ≡ i = cc in omega (arith, t, k)
    | inr a ↦ elim (Bool-cases (is_slot r target)) [
      | inl b ↦ let k : source ≡ i = cc in omega (arith, s, k)
      | inr b ↦ h i cc
    ]
  ]

  swap_loops-IsEngine :
      (e : Engine P) (source target : ℕ) (s t : LoopSlot F)
      → IsEngine e
      → get_elem? e.loops source ≡ some s
      → get_elem? e.loops target ≡ some t
      → IsEngine (swap_loops f P e source target s t)
  unfolding swap_loops
  swap_loops-IsEngine e source target s t v a b =
      let n = length-set (set e.loops source t) target s ∙ length-set e.loops source t in
      record {
        pool_valid = v.pool_valid;
        loops_valid =
            All-set IsLoop (set e.loops source t) target s
              (All-set IsLoop e.loops source t v.loops_valid
                (All-get IsLoop e.loops target t v.loops_valid b))
              (All-get IsLoop e.loops source s v.loops_valid a);
        recorded = λ i h.
            let inside =
              swapped-lt source target (length e.loops) e.recorder.recording
                (get_elem?-lt e.loops source a) (get_elem?-lt e.loops target b) v.recorded i h in
            omega (arith, inside, n);
        phase_fits = v.phase_fits;
        history_level = v.history_level;
        history_fits = v.history_fits;
        transfers_valid = v.transfers_valid;
      }

  pub move_loop-IsEngine :
      (e : Engine P) (command : RuntimeCommand F) (source target : ℕ)
      → IsEngine e
      → IsEngine (move_loop f P e command source target)
  unfolding move_loop
  move_loop-IsEngine e command source target v =
      let no = reject-IsEngine e command v in
      elim (Option-cases (get_elem? e.loops source)) [
        | inl a ↦ rw (a, move_loop) no
        | inr s ↦ elim (Option-cases (get_elem? e.loops target)) [
          | inl b ↦ rw (s.1, move_loop) (rw b no)
          | inr t ↦
              rw (s.1, move_loop)
                (rw t.1 (
                  if_both (source == target || s.0.len == 0 || not (t.0.len == 0)) no
                    (swap_loops-IsEngine e source target s.0 t.0 v s.1 t.1)))
        ]
      ]
