-- ===== src/Engine/Loop/Smooth.antt =====
-- src/native_dsp_graph.rs: the loops over the frames of a loop run to their end within its capacity.
use freewheeling_plus.Prelude.{
  ℕ, zero, suc, ◌+◌, ◌-◌, ◌≤◌, ◌≡◌, refl, ap, ◌∙◌, false, some, ltb, arith,
}
use freewheeling_plus.Prelude.Floats.{Float32}
use freewheeling_plus.Engine.Loop.{
  LoopSlot, loop_smooth_frames, uses_blocks, stored, capacity, copy_head, blend, blend_loop,
  smooth_endpoints,
}
use freewheeling_plus.Engine.Loop.Samples.{IsStored, Rewritten, sample_at-lt, set_sample-lt}

module _ {F : Type 0} where
  pub Rewritten-refl : (s : LoopSlot F) → IsStored s → Rewritten s s
  Rewritten-refl s v = record { formed = v; same_room = refl; kept = refl }

  pub Rewritten-trans : (s t u : LoopSlot F) → Rewritten s t → Rewritten t u → Rewritten s u
  Rewritten-trans s t u a b = record {
    formed = b.formed;
    same_room = b.same_room ∙ a.same_room;
    kept =
        b.kept
        ∙ ap (λ (x : LoopSlot F). record x { left = u.left; right = u.right; blocks = u.blocks })
            a.kept;
  }

  pub Rewritten-capacity : (s t : LoopSlot F) → Rewritten s t → capacity t ≡ capacity s
  unfolding capacity
  Rewritten-capacity s t a =
      omega (arith, a.same_room, ap (λ (x : LoopSlot F). x.data_offset) a.kept)

  pub copy_head-Rewritten :
      (n offset len : ℕ) (s : LoopSlot F)
      → IsStored s
      → len + offset + n ≤ capacity s
      → (t : LoopSlot F) × (copy_head n offset len s ≡ some t) × Rewritten s t
  unfolding copy_head
  copy_head-Rewritten zero offset len s v h = (s, refl, Rewritten-refl s v)
  copy_head-Rewritten (suc n) offset len s v h =
      let x = sample_at-lt s offset v (omega (arith, h)) in
      let w = set_sample-lt s (len + offset) x.0.0 x.0.1 v (omega (arith, h)) in
      let rest =
        copy_head-Rewritten n (suc offset) len w.0 w.2.formed
          (omega (arith, h, Rewritten-capacity s w.0 w.2)) in
      (rest.0, rw x.1 (rw w.1 rest.1), Rewritten-trans s w.0 rest.0 w.2 rest.2)

module _ (f : Float32) where
  open f use {F, of_ℕ, div}

  blend_loop-Rewritten :
      (n offset last_start : ℕ) (s : LoopSlot F)
      → IsStored s
      → last_start + offset + n ≤ capacity s
      → (t : LoopSlot F) × (blend_loop f n offset last_start s ≡ some t) × Rewritten s t
  unfolding blend_loop
  blend_loop-Rewritten zero offset last_start s v h = (s, refl, Rewritten-refl s v)
  blend_loop-Rewritten (suc n) offset last_start s v h =
      let mix = div (of_ℕ offset) (of_ℕ loop_smooth_frames) in
      let a = sample_at-lt s offset v (omega (arith, h)) in
      let b = sample_at-lt s (last_start + offset) v (omega (arith, h)) in
      let w =
        set_sample-lt s (last_start + offset) (blend f mix a.0.0 b.0.0) (blend f mix a.0.1 b.0.1) v
          (omega (arith, h)) in
      let rest =
        blend_loop-Rewritten n (suc offset) last_start w.0 w.2.formed
          (omega (arith, h, Rewritten-capacity s w.0 w.2)) in
      (rest.0, rw a.1 (rw b.1 (rw w.1 rest.1)), Rewritten-trans s w.0 rest.0 w.2 rest.2)

  -- What the smoother leaves of a loop of at least 64 frames that fits: the first 64 are cut off.
  pub record IsSmoothed (s t : LoopSlot F) : Type 0 where
    pub formed : IsStored t
    pub same_room : stored t ≡ stored s
    pub kept : t ≡ record s {
      left = t.left;
      right = t.right;
      blocks = t.blocks;
      data_offset = s.data_offset + loop_smooth_frames;
      len = s.len - loop_smooth_frames;
    }

  cut_start : LoopSlot F → LoopSlot F
  cut_start t = record t {
    data_offset = t.data_offset + loop_smooth_frames;
    len = t.len - loop_smooth_frames;
  }

  cut_start-IsSmoothed : (s t : LoopSlot F) → Rewritten s t → IsSmoothed s (cut_start t)
  unfolding cut_start stored uses_blocks
  cut_start-IsSmoothed s t w = record {
    formed = record { blocks_formed = w.formed.blocks_formed; channels = w.formed.channels };
    same_room = w.same_room;
    kept = ap (λ (x : LoopSlot F). cut_start x) w.kept;
  }

  pub smooth_endpoints-IsSmoothed :
      (s : LoopSlot F)
      → IsStored s
      → s.len ≤ capacity s
      → loop_smooth_frames ≤ s.len
      → (t : LoopSlot F) × (smooth_endpoints f s ≡ some t) × IsSmoothed s t
  unfolding smooth_endpoints cut_start
  smooth_endpoints-IsSmoothed s v fits long =
      let b =
        blend_loop-Rewritten loop_smooth_frames 0 (s.len - loop_smooth_frames) s v
          (omega (arith, fits, long)) in
      let enough : ltb s.len loop_smooth_frames ≡ false = ground arith in
      (cut_start b.0, rw enough (rw b.1 refl), cut_start-IsSmoothed s b.0 b.2)
