-- ===== src/Engine/Loop/Samples.antt =====
-- src/native_dsp_graph.rs: the frames of a loop within its capacity can be read and written.
use freewheeling_plus.Prelude.{
  ℕ, zero, suc, ◌+◌, ◌*◌, ◌/◌, ◌%◌, ◌<◌, ◌≡◌, refl, sym, ◌∙◌, true, false, some, List, [], ◌∷◌,
  length, set, length-set, lt→ltb, arith, All, All-get, All-set, get_elem?-some, Bool-cases, inl,
  inr,
}
use freewheeling_plus.Engine.Transfer.{StereoTransfer}
use freewheeling_plus.Engine.Blocks.{audio_block_frames, IsBlock}
use freewheeling_plus.Engine.Loop.{
  LoopSlot, is_nil, stereo_at, uses_blocks, stored, capacity, sample_at, set_block, set_buffer,
  set_sample,
}

-- The storage of a loop: whole blocks, and a buffer with as many frames on both channels.
pub record IsStored {F : Type 0} (s : LoopSlot F) : Type 0 where
  pub blocks_formed : All IsBlock s.blocks
  pub channels : length s.left ≡ length s.right

-- What a write leaves: only the samples differ, and as many as before are stored.
pub record Rewritten {F : Type 0} (s t : LoopSlot F) : Type 0 where
  pub formed : IsStored t
  pub same_room : stored t ≡ stored s
  pub kept : t ≡ record s { left = t.left; right = t.right; blocks = t.blocks }

pub stereo_at-some :
    {F : Type 0} (left right : List F) (i : ℕ)
    → i < length left
    → i < length right
    → (x : F × F) × (stereo_at left right i ≡ some x)
unfolding stereo_at
stereo_at-some left right i l r =
    let a = get_elem?-some left i l in
    let b = get_elem?-some right i r in ((a.0, b.0), rw a.1 (rw b.1 refl))

-- Where the frame lies in a chain of `n` blocks.
in_chain : (at n : ℕ) → at < n * audio_block_frames → at / audio_block_frames < n
in_chain at n h = omega (arith, h)

in_block : (at : ℕ) → at % audio_block_frames < audio_block_frames
in_block at = omega arith

is_nil-set {ℓ} : {A : Type ℓ} (xs : List A) (i : ℕ) (v : A) → is_nil (set xs i v) ≡ is_nil xs
unfolding is_nil
is_nil-set [] i v = refl
is_nil-set (x ∷ xs) zero v = refl
is_nil-set (x ∷ xs) (suc i) v = refl

module _ {F : Type 0} where
  stored_chain :
      (s : LoopSlot F) → uses_blocks s ≡ true → stored s ≡ length s.blocks * audio_block_frames
  unfolding stored
  stored_chain s e = rw e refl

  stored_buffer : (s : LoopSlot F) → uses_blocks s ≡ false → stored s ≡ length s.left
  unfolding stored
  stored_buffer s e = rw e refl

  sample_at-stored :
      (s : LoopSlot F) (frame : ℕ)
      → IsStored s
      → frame + s.data_offset < stored s
      → (x : F × F) × (sample_at s frame ≡ some x)
  unfolding sample_at
  sample_at-stored s frame v h = elim (Bool-cases (uses_blocks s)) [
    | inl e ↦
        let b = get_elem?-some s.blocks ((frame + s.data_offset) / audio_block_frames) (
          in_chain (frame + s.data_offset) (length s.blocks)
            (omega (arith, h, stored_chain s e))) in
        let formed = All-get IsBlock s.blocks _ b.0 v.blocks_formed b.1 in
        let x =
          stereo_at-some b.0.left b.0.right ((frame + s.data_offset) % audio_block_frames)
            (omega (arith, in_block (frame + s.data_offset), formed.left_frames))
            (omega (arith, in_block (frame + s.data_offset), formed.right_frames)) in
        (x.0, rw e (rw b.1 x.1))
    | inr e ↦
        let x =
          stereo_at-some s.left s.right (frame + s.data_offset)
            (omega (arith, h, stored_buffer s e))
            (omega (arith, h, stored_buffer s e, v.channels)) in
        (x.0, rw e x.1)
  ]

  pub sample_at-lt :
      (s : LoopSlot F) (frame : ℕ)
      → IsStored s
      → frame < capacity s
      → (x : F × F) × (sample_at s frame ≡ some x)
  unfolding capacity
  sample_at-lt s frame v h = sample_at-stored s frame v (omega (arith, h))

  set_block-IsBlock :
      (b : StereoTransfer F) (i : ℕ) (l r : F)
      → IsBlock b
      → i < audio_block_frames
      → (c : StereoTransfer F) × (set_block b i l r ≡ some c) × IsBlock c
  unfolding set_block
  set_block-IsBlock b i l r v h = (
    record b { left = set b.left i l; right = set b.right i r },
    rw (lt→ltb i (length b.left) (omega (arith, h, v.left_frames)))
        (rw (lt→ltb i (length b.right) (omega (arith, h, v.right_frames))) refl),
    record {
      left_frames = length-set b.left i l ∙ v.left_frames;
      right_frames = length-set b.right i r ∙ v.right_frames;
    },
  )

  set_buffer-lt :
      (s : LoopSlot F) (i : ℕ) (l r : F)
      → IsStored s
      → i < length s.left
      → set_buffer s i l r ≡ some (record s { left = set s.left i l; right = set s.right i r })
  unfolding set_buffer
  set_buffer-lt s i l r v h =
      rw (lt→ltb i (length s.left) h)
        (rw (lt→ltb i (length s.right) (omega (arith, h, v.channels))) refl)

  set_sample-stored :
      (s : LoopSlot F) (frame : ℕ) (l r : F)
      → IsStored s
      → frame + s.data_offset < stored s
      → (t : LoopSlot F) × (set_sample s frame l r ≡ some t) × Rewritten s t
  unfolding set_sample stored uses_blocks
  set_sample-stored s frame l r v h = elim (Bool-cases (uses_blocks s)) [
    | inl e ↦
        let i = (frame + s.data_offset) / audio_block_frames in
        let b = get_elem?-some s.blocks i (
          in_chain (frame + s.data_offset) (length s.blocks)
            (omega (arith, h, stored_chain s e))) in
        let formed = All-get IsBlock s.blocks i b.0 v.blocks_formed b.1 in
        let c =
          set_block-IsBlock b.0 ((frame + s.data_offset) % audio_block_frames) l r formed
            (in_block (frame + s.data_offset)) in
        (
          record s { blocks = set s.blocks i c.0 },
          rw e (rw b.1 (rw c.1 refl)),
          record {
            formed = record {
              blocks_formed = All-set IsBlock s.blocks i c.0 v.blocks_formed c.2;
              channels = v.channels;
            };
            same_room = rw (is_nil-set s.blocks i c.0) (rw (length-set s.blocks i c.0) refl);
            kept = refl;
          },
        )
    | inr e ↦
        let i = frame + s.data_offset in
        (
          record s { left = set s.left i l; right = set s.right i r },
          rw e (set_buffer-lt s i l r v (omega (arith, h, stored_buffer s e))),
          record {
            formed = record {
              blocks_formed = v.blocks_formed;
              channels = length-set s.left i l ∙ (v.channels ∙ sym (length-set s.right i r));
            };
            same_room = rw (length-set s.left i l) refl;
            kept = refl;
          },
        )
  ]

  pub set_sample-lt :
      (s : LoopSlot F) (frame : ℕ) (l r : F)
      → IsStored s
      → frame < capacity s
      → (t : LoopSlot F) × (set_sample s frame l r ≡ some t) × Rewritten s t
  unfolding capacity
  set_sample-lt s frame l r v h = set_sample-stored s frame l r v (omega (arith, h))
