-- ===== src/Engine/Runtime/Take.antt =====
-- src/native_dsp_graph.rs: a recording that ends is smoothed within its storage.
use freewheeling_plus.Prelude.{
  ℕ, ◌+◌, ◌-◌, ◌≤◌, ◌≡◌, refl, ap, ◌∙◌, subst, true, false, not, ◌&&◌, some, leb, arith, Bool-cases,
  inl, inr,
}
use freewheeling_plus.Prelude.Words.{usize_max, sat_add}
use freewheeling_plus.Prelude.Floats.{Float32}
use freewheeling_plus.Engine.Runtime.Room.{
  IsRoomy, IsSame, IsTaken, unchanged-IsTaken, grown-IsTaken, reach-IsGrown,
}
use freewheeling_plus.Engine.Blocks.{BlockPool}
use freewheeling_plus.Engine.Loop.{
  LoopSlot, loop_smooth_frames, stored, capacity, uses_blocks, copy_head, smooth_endpoints,
}
use freewheeling_plus.Engine.Loop.Samples.{IsStored, Rewritten}
use freewheeling_plus.Engine.Loop.Smooth.{
  IsSmoothed, copy_head-Rewritten, smooth_endpoints-IsSmoothed,
}
use freewheeling_plus.Engine.Runtime.{is_recording}
use freewheeling_plus.Engine.Runtime.Recording.{
  reach, append_unsynchronised_crossfade_tail, smooth_take,
}
use freewheeling_plus.Engine.Runtime.Grow.{IsGrown}

module _ (f : Float32) (P : BlockPool f.F) where
  open f use {F, of_ℕ}
  open P use {Pool, IsPool, ready, room, add_block, release_blocks}

  longer : LoopSlot F → ℕ → LoopSlot F
  longer c n = record c { len = n + loop_smooth_frames }

  longer-IsStored : (c : LoopSlot F) (n : ℕ) → IsStored c → IsStored (longer c n)
  unfolding longer
  longer-IsStored c n v = record { blocks_formed = v.blocks_formed; channels = v.channels }

  longer-stored : (c : LoopSlot F) (n : ℕ) → stored (longer c n) ≡ stored c
  unfolding longer stored uses_blocks
  longer-stored c n = refl

  longer-len :
      (c : LoopSlot F) (n : ℕ)
      → ((longer c n).len ≡ n + loop_smooth_frames) × ((longer c n).data_offset ≡ c.data_offset)
  unfolding longer
  longer-len c n = (refl, refl)

  longer-IsSame :
      (s c t : LoopSlot F) → Rewritten s c → IsSmoothed f (longer c s.len) t → IsSame s t
  unfolding longer
  longer-IsSame s c t w g = record {
    mode = ap (λ (x : LoopSlot F). x.mode) g.kept ∙ ap (λ (x : LoopSlot F). x.mode) w.kept;
    position =
        ap (λ (x : LoopSlot F). x.position) g.kept ∙ ap (λ (x : LoopSlot F). x.position) w.kept;
    len = ap (λ (x : LoopSlot F). x.len) g.kept ∙ omega arith;
    pulse_synced =
        ap (λ (x : LoopSlot F). x.pulse_synced) g.kept
        ∙ ap (λ (x : LoopSlot F). x.pulse_synced) w.kept;
  }

  cut-IsRoomy :
      (u t : LoopSlot F)
      → IsSmoothed f u t
      → loop_smooth_frames ≤ u.len
      → u.len ≤ capacity u
      → u.len ≤ usize_max
      → IsRoomy t
  unfolding capacity
  cut-IsRoomy u t g long fits short =
      let offset : t.data_offset ≡ u.data_offset + loop_smooth_frames =
        ap (λ (x : LoopSlot F). x.data_offset) g.kept in
      let len : t.len ≡ u.len - loop_smooth_frames = ap (λ (x : LoopSlot F). x.len) g.kept in
      record {
        formed = g.formed;
        offset_fits = omega (arith, offset, g.same_room, long, fits);
        fits = omega (arith, offset, len, g.same_room, fits);
        short = omega (arith, len, long, short);
      }

  smooth_longer :
      (s c : LoopSlot F)
      → Rewritten s c
      → s.len + loop_smooth_frames ≤ capacity s
      → s.len + loop_smooth_frames ≤ usize_max
      → (t : LoopSlot F) × (smooth_endpoints f (longer c s.len) ≡ some t) × IsRoomy t × IsSame s t
  unfolding capacity
  smooth_longer s c w fits short =
      let u = longer c s.len in
      let l = longer-len c s.len in
      let offset : c.data_offset ≡ s.data_offset = ap (λ (x : LoopSlot F). x.data_offset) w.kept in
      let room : u.len ≤ stored u - u.data_offset =
        omega (arith, l.0, l.1, offset, longer-stored c s.len, w.same_room, fits) in
      let long : loop_smooth_frames ≤ u.len = omega (arith, l.0) in
      let t = smooth_endpoints-IsSmoothed f u (longer-IsStored c s.len w.formed) room long in
      (
        t.0,
        t.1,
        cut-IsRoomy u t.0 t.2 long room (omega (arith, l.0, short)),
        longer-IsSame s c t.0 w t.2,
      )

  -- The tail of 64 frames and the smoother that cuts off the first 64.
  tailed :
      (s : LoopSlot F)
      → IsStored s
      → s.len + loop_smooth_frames ≤ capacity s
      → loop_smooth_frames ≤ s.len
      → s.len + loop_smooth_frames ≤ usize_max
      → (c t : LoopSlot F) × (copy_head loop_smooth_frames 0 s.len s ≡ some c)
        × (smooth_endpoints f (longer c s.len) ≡ some t)
        × IsRoomy t
        × IsSame s t
  tailed s v fits long short =
      let c = copy_head-Rewritten loop_smooth_frames 0 s.len s v (omega (arith, fits)) in
      let t = smooth_longer s c.0 c.2 fits short in (c.0, t.0, c.1, t.1, t.2, t.3)

  -- What a copied tail is smoothed to.
  record IsTailed (p : Pool) (s : LoopSlot F) (required : ℕ) : Type 0 where
    copied : LoopSlot F
    smoothed : LoopSlot F
    copy : copy_head loop_smooth_frames 0 s.len (reach f P required p s).1 ≡ some copied
    smooth : smooth_endpoints f (record copied { len = required }) ≡ some smoothed
    roomy : IsRoomy smoothed
    same : IsSame s smoothed

  reached-IsTailed :
      (p : Pool) (s : LoopSlot F) (required : ℕ)
      → required ≡ s.len + loop_smooth_frames
      → loop_smooth_frames ≤ s.len
      → IsRoomy s
      → IsGrown f P required p s (reach f P required p s)
      → (reach f P required p s).2 ≡ true
      → IsTailed p s required
  unfolding longer
  reached-IsTailed p s required e long w g done =
      let u = (reach f P required p s).1 in
      let len : u.len ≡ s.len = ap (λ (x : LoopSlot F). x.len) g.kept in
      let t =
        tailed u g.formed (omega (arith, g.reached done, len, e)) (omega (arith, long, len))
          (omega (arith, w.short, len)) in
      let total : u.len + loop_smooth_frames ≡ required = omega (arith, len, e) in
      let same = t.5 in
      record {
        copied = t.0;
        smoothed = t.1;
        copy = subst (λ n. copy_head loop_smooth_frames 0 n u ≡ some t.0) len t.2;
        smooth = subst (λ n. smooth_endpoints f (record t.0 { len = n }) ≡ some t.1) total t.3;
        roomy = t.4;
        same = record {
          mode = same.mode ∙ ap (λ (x : LoopSlot F). x.mode) g.kept;
          position = same.position ∙ ap (λ (x : LoopSlot F). x.position) g.kept;
          len = same.len ∙ len;
          pulse_synced = same.pulse_synced ∙ ap (λ (x : LoopSlot F). x.pulse_synced) g.kept;
        };
      }

  grown_untouched :
      (s t : LoopSlot F) → is_recording s.mode ≡ true → is_recording s.mode ≡ false → t ≡ s
  grown_untouched s t live h = absurd cc

  smoothed_take :
      (p : Pool) (s : LoopSlot F)
      → (is_recording s.mode && not s.pulse_synced && leb loop_smooth_frames s.len) ≡ true
      → loop_smooth_frames ≤ s.len
      → IsPool p
      → IsRoomy s
      → (r : Pool × LoopSlot F) × (smooth_take f P p s ≡ some r) × IsTaken f P p s r
  unfolding smooth_take append_unsynchronised_crossfade_tail
  smoothed_take p s wants long v w =
      let required = sat_add usize_max s.len loop_smooth_frames in
      let r = reach f P required p s in
      let exact : required ≡ s.len + loop_smooth_frames = omega (arith, w.short) in
      let g = reach-IsGrown f P required p s v w.formed w.offset_fits in
      let live : is_recording s.mode ≡ true = ground arith in
      let grown = grown-IsTaken f P required p s r w live (omega (arith, exact)) g in
      elim (Bool-cases r.2) [
        | inr full ↦ ((r.0, r.1), rw wants (rw full refl), grown)
        | inl done ↦
            let t = reached-IsTailed p s required exact long w g done in
            (
              (r.0, t.smoothed),
              rw wants (rw done (rw t.copy (rw t.smooth refl))),
              record {
                pool_valid = grown.pool_valid;
                roomy = t.roomy;
                same = t.same;
                untouched = grown_untouched s t.smoothed live;
                cheap = grown.cheap;
                same_room = grown.same_room;
              },
            )
      ]

  -- Whatever loop a recording ends with, its smoother runs to its end and leaves a loop of the same
  -- length within its storage, for one block at most.
  pub smooth_take-IsTaken :
      (p : Pool) (s : LoopSlot F)
      → IsPool p
      → IsRoomy s
      → (r : Pool × LoopSlot F) × (smooth_take f P p s ≡ some r) × IsTaken f P p s r
  unfolding smooth_take
  smooth_take-IsTaken p s v w =
      elim (Bool-cases
        (is_recording s.mode && not s.pulse_synced && leb loop_smooth_frames s.len)) [
          | inl wants ↦ smoothed_take p s wants (ground arith) v w
          | inr stays ↦ ((p, s), rw stays refl, unchanged-IsTaken f P p s v w)
        ]
