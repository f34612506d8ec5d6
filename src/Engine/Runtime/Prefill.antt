-- ===== src/Engine/Runtime/Prefill.antt =====
-- src/native_dsp_graph.rs: a recording starts with the input frames from before it.
use native.Mathlib.Nat
use freewheeling_plus.Prelude.{
  ℕ, zero, suc, ◌+◌, ◌-◌, ◌%◌, ◌≤◌, ◌<◌, ◌≡◌, refl, ap, ◌∙◌, min, ◌||◌, some, ◌==◌, length, arith,
  Bool-cases, inl, inr,
}
use freewheeling_plus.Prelude.Words.{u32_max, usize_max}
use freewheeling_plus.Prelude.Floats.{Float32}
use freewheeling_plus.Engine.Blocks.{BlockPool}
use freewheeling_plus.Engine.Loop.{LoopSlot, loop_smooth_frames, stored, capacity, uses_blocks}
use freewheeling_plus.Engine.Loop.Samples.{IsStored, Rewritten, stereo_at-some, set_sample-lt}
use freewheeling_plus.Engine.Loop.Smooth.{Rewritten-refl, Rewritten-trans, Rewritten-capacity}
use freewheeling_plus.Engine.Runtime.{InputHistory}
use freewheeling_plus.Engine.Runtime.Recording.{
  prefill_silence, prefill_input, prefill_recording_from_history,
}
use freewheeling_plus.Engine.Runtime.Room.{IsRoomy}
use freewheeling_plus.Engine.Runtime.Valid.{IsLoop}

module _ (f : Float32) (P : BlockPool f.F) where
  open f use {F, of_ℕ}
  open P use {Pool, IsPool, ready, room, add_block, release_blocks}

  prefill_silence-Rewritten :
      (n offset : ℕ) (s : LoopSlot F)
      → IsStored s
      → offset + n ≤ capacity s
      → (t : LoopSlot F) × (prefill_silence f P n offset s ≡ some t) × Rewritten s t
  unfolding prefill_silence
  prefill_silence-Rewritten zero offset s v h = (s, refl, Rewritten-refl s v)
  prefill_silence-Rewritten (suc n) offset s v h =
      let w = set_sample-lt s offset (of_ℕ 0) (of_ℕ 0) v (omega (arith, h)) in
      let rest =
        prefill_silence-Rewritten n (suc offset) w.0 w.2.formed
          (omega (arith, h, Rewritten-capacity s w.0 w.2)) in
      (rest.0, rw w.1 rest.1, Rewritten-trans s w.0 rest.0 w.2 rest.2)

  prefill_input-Rewritten :
      (n offset missing start : ℕ) (h : InputHistory F) (s : LoopSlot F)
      → length h.left ≡ length h.right
      → 0 < length h.left
      → IsStored s
      → missing + offset + n ≤ capacity s
      → (t : LoopSlot F) × (prefill_input f P n offset missing start h s ≡ some t) × Rewritten s t
  unfolding prefill_input
  prefill_input-Rewritten zero offset missing start h s l k v r = (s, refl, Rewritten-refl s v)
  prefill_input-Rewritten (suc n) offset missing start h s l k v r =
      let i = (start + offset) % length h.left in
      let inside : i < length h.left = Nat.mod-lt (start + offset) {m = length h.left} k in
      let x = stereo_at-some h.left h.right i inside (omega (arith, inside, l)) in
      let w = set_sample-lt s (missing + offset) x.0.0 x.0.1 v (omega (arith, r)) in
      let rest =
        prefill_input-Rewritten n (suc offset) missing start h w.0 l k w.2.formed
          (omega (arith, r, Rewritten-capacity s w.0 w.2)) in
      (rest.0, rw x.1 (rw w.1 rest.1), Rewritten-trans s w.0 rest.0 w.2 rest.2)

  -- A loop at its start whose frames were written.
  written-IsLoop :
      (s u : LoopSlot F) (n : ℕ)
      → Rewritten s u
      → s.position ≡ 0
      → s.data_offset ≤ stored s
      → n ≤ capacity s
      → n + loop_smooth_frames ≤ usize_max
      → IsLoop (record u { len = n })
  unfolding capacity stored uses_blocks
  written-IsLoop s u n w at_start o h short =
      let offset : u.data_offset ≡ s.data_offset = ap (λ (x : LoopSlot F). x.data_offset) w.kept in
      let position : u.position ≡ 0 = ap (λ (x : LoopSlot F). x.position) w.kept ∙ at_start in
      record {
        roomy = record {
          formed = record { blocks_formed = w.formed.blocks_formed; channels = w.formed.channels };
          offset_fits = omega (arith, o, offset, w.same_room);
          fits = omega (arith, h, offset, w.same_room);
          short = short;
        };
        placed = λ p. omega (arith, p, position);
      }

  pub prefill-IsLoop :
      (h : InputHistory F) (s : LoopSlot F) (requested : ℕ)
      → length h.left ≡ length h.right
      → IsRoomy s
      → s.position ≡ 0
      → requested ≤ u32_max
      → (t : LoopSlot F) × (prefill_recording_from_history f P h s requested ≡ some t) × IsLoop t
  unfolding prefill_recording_from_history
  prefill-IsLoop h s requested level v at_start small =
      let total = min requested (capacity s) in
      let available = min total h.len in
      let start = (h.position + length h.left - available) % length h.left in
      elim (Bool-cases (total == 0 || length h.left == 0)) [
        | inl t ↦ (s, rw t refl, record { roomy = v; placed = λ p. omega (arith, p, at_start) })
        | inr t ↦
            let a = prefill_silence-Rewritten (total - available) 0 s v.formed (omega arith) in
            let b =
              prefill_input-Rewritten available 0 (total - available) start h a.0 level
                (ground arith) a.2.formed (omega (arith, Rewritten-capacity s a.0 a.2)) in
            (
              record b.0 { len = total },
              rw t (rw a.1 (rw b.1 refl)),
              written-IsLoop s b.0 total (Rewritten-trans s a.0 b.0 a.2 b.2) at_start v.offset_fits
                  (omega arith) (omega (arith, small)),
            )
      ]
