-- ===== src/Engine/Runtime/Room.antt =====
-- src/native_dsp_graph.rs: the loops that lie within their storage.
use freewheeling_plus.Prelude.{
  ℕ, ◌+◌, ◌≤◌, ◌≡◌, refl, sym, ap, ◌∙◌, subst, Bool, true, false, All, length, arith,
}
use freewheeling_plus.Prelude.Words.{usize_max}
use freewheeling_plus.Prelude.Floats.{Float32}
use freewheeling_plus.Engine.Blocks.{BlockPool, IsBlock}
use freewheeling_plus.Engine.Loop.{LoopSlot, loop_smooth_frames, stored, capacity, uses_blocks}
use freewheeling_plus.Engine.Loop.Samples.{IsStored}
use freewheeling_plus.Engine.Runtime.{is_recording}
use freewheeling_plus.Engine.Runtime.Recording.{reach}
use freewheeling_plus.Engine.Runtime.Grow.{IsGrown, extend_storage-IsGrown}

-- A loop whose frames lie within its storage; no loop is so long that 64 more frames overflow.
pub record IsRoomy {F : Type 0} (s : LoopSlot F) : Type 0 where
  pub formed : IsStored s
  pub offset_fits : s.data_offset ≤ stored s
  pub fits : s.len ≤ capacity s
  pub short : s.len + loop_smooth_frames ≤ usize_max

-- The same storage, and no more frames in it.
pub record IsKept {F : Type 0} (s t : LoopSlot F) : Type 0 where
  pub left : t.left ≡ s.left
  pub right : t.right ≡ s.right
  pub blocks : t.blocks ≡ s.blocks
  pub data_offset : t.data_offset ≡ s.data_offset
  pub len : t.len ≤ s.len

kept-stored :
    {F : Type 0} (s t : LoopSlot F) → t.blocks ≡ s.blocks → t.left ≡ s.left → stored t ≡ stored s
unfolding stored uses_blocks
kept-stored s t p q = rw p (rw q refl)

pub kept-IsRoomy : {F : Type 0} (s t : LoopSlot F) → IsKept s t → IsRoomy s → IsRoomy t
unfolding capacity
kept-IsRoomy s t k w =
    let room : stored t ≡ stored s = kept-stored s t k.blocks k.left in
    record {
      formed = record {
        blocks_formed = subst (All IsBlock) (sym k.blocks) w.formed.blocks_formed;
        channels = ap length k.left ∙ (w.formed.channels ∙ sym (ap length k.right));
      };
      offset_fits = omega (arith, w.offset_fits, room, k.data_offset);
      fits = omega (arith, w.fits, room, k.data_offset, k.len);
      short = omega (arith, w.short, k.len);
    }

-- What the end of a recording leaves as it was.
pub record IsSame {F : Type 0} (s t : LoopSlot F) : Type 0 where
  pub mode : t.mode ≡ s.mode
  pub position : t.position ≡ s.position
  pub len : t.len ≡ s.len
  pub pulse_synced : t.pulse_synced ≡ s.pulse_synced

module _ (f : Float32) (P : BlockPool f.F) where
  open f use {F}
  open P use {Pool, IsPool, ready, room}

  pub record IsTaken (p : Pool) (s : LoopSlot F) (r : Pool × LoopSlot F) : Type 0 where
    pub pool_valid : IsPool r.0
    pub roomy : IsRoomy r.1
    pub same : IsSame s r.1
    pub untouched : is_recording s.mode ≡ false → r.1 ≡ s
    pub cheap : ready p ≤ ready r.0 + 1
    pub same_room : room r.0 ≡ room p

  pub reach-IsGrown :
      (required : ℕ) (p : Pool) (s : LoopSlot F)
      → IsPool p
      → IsStored s
      → s.data_offset ≤ stored s
      → IsGrown f P required p s (reach f P required p s)
  unfolding reach
  reach-IsGrown required p s v w o =
      extend_storage-IsGrown f P (required + s.data_offset) required p s v w o

  pub unchanged-IsTaken : (p : Pool) (s : LoopSlot F) → IsPool p → IsRoomy s → IsTaken p s (p, s)
  unchanged-IsTaken p s v w = record {
    pool_valid = v;
    roomy = w;
    same = record { mode = refl; position = refl; len = refl; pulse_synced = refl };
    untouched = λ h. refl;
    cheap = omega arith;
    same_room = refl;
  }

  pub grown-IsRoomy :
      (required : ℕ) (p : Pool) (s : LoopSlot F) (r : Pool × LoopSlot F × Bool)
      → IsGrown f P required p s r
      → IsRoomy s
      → IsRoomy r.1
  unfolding capacity
  grown-IsRoomy required p s r g w =
      let offset : r.1.data_offset ≡ s.data_offset =
        ap (λ (x : LoopSlot F). x.data_offset) g.kept in
      let len : r.1.len ≡ s.len = ap (λ (x : LoopSlot F). x.len) g.kept in
      record {
        formed = g.formed;
        offset_fits = omega (arith, offset, w.offset_fits, g.wider);
        fits = omega (arith, offset, len, w.fits, g.wider);
        short = omega (arith, len, w.short);
      }

  -- More storage, and the same frames in it.
  pub grown-IsTaken :
      (required : ℕ) (p : Pool) (s : LoopSlot F) (r : Pool × LoopSlot F × Bool)
      → IsRoomy s
      → is_recording s.mode ≡ true
      → required ≤ s.len + loop_smooth_frames
      → IsGrown f P required p s r
      → IsTaken p s (r.0, r.1)
  unfolding capacity
  grown-IsTaken required p s r w live few g = record {
    pool_valid = g.pool_valid;
    roomy = grown-IsRoomy required p s r g w;
    same = record {
      mode = ap (λ (x : LoopSlot F). x.mode) g.kept;
      position = ap (λ (x : LoopSlot F). x.position) g.kept;
      len = ap (λ (x : LoopSlot F). x.len) g.kept;
      pulse_synced = ap (λ (x : LoopSlot F). x.pulse_synced) g.kept;
    };
    untouched = λ h. absurd cc;
    cheap = g.cheap (omega (arith, few, w.fits));
    same_room = g.same_room;
  }
