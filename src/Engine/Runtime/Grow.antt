-- ===== src/Engine/Runtime/Grow.antt =====
-- src/native_dsp_graph.rs: the loops that add blocks to a loop until a capacity is reached.
use freewheeling_plus.Prelude.{
  ℕ, zero, suc, ◌+◌, ◌-◌, ◌*◌, ◌≤◌, ◌<◌, ◌≡◌, refl, sym, ap, ◌∙◌, subst, Bool, true, false, not,
  List, [], ◌∷◌, length, leb, leb→le, le→leb, if◌then◌else◌, arith, Bool-cases, inl, inr,
}
use freewheeling_plus.Prelude.Floats.{Float32}
use freewheeling_plus.Engine.Blocks.{BlockPool, audio_block_frames}
use freewheeling_plus.Engine.Loop.{LoopSlot, is_nil, uses_blocks, stored, capacity}
use freewheeling_plus.Engine.Loop.Samples.{IsStored}
use freewheeling_plus.Engine.Runtime.Recording.{extend_storage}

chain_pos {ℓ} : {A : Type ℓ} (xs : List A) → not (is_nil xs) ≡ true → 0 < length xs
unfolding is_nil
chain_pos [] e = absurd cc
chain_pos (x ∷ xs) e = omega arith

is_nil-pos {ℓ} : {A : Type ℓ} (xs : List A) → 0 < length xs → is_nil xs ≡ false
unfolding is_nil
is_nil-pos [] h = elim h [ ]
is_nil-pos (x ∷ xs) h = refl

module _ {F : Type 0} where
  stored_blocks :
      (s : LoopSlot F) → 0 < length s.blocks → stored s ≡ length s.blocks * audio_block_frames
  unfolding stored uses_blocks
  stored_blocks s h = rw (is_nil-pos s.blocks h) refl

  blocks_pos : (s : LoopSlot F) → uses_blocks s ≡ true → 0 < length s.blocks
  unfolding uses_blocks
  blocks_pos s e = chain_pos s.blocks e

module _ (f : Float32) (P : BlockPool f.F) where
  open f use {F}
  open P use {Pool, IsPool, ready, room, add_block, length-add_block}

  -- What adding blocks leaves of a pool and a loop.
  pub record IsGrown (required : ℕ) (p : Pool) (s : LoopSlot F) (r : Pool × LoopSlot F × Bool)
      : Type 0 where
    pub pool_valid : IsPool r.0
    pub formed : IsStored r.1
    pub kept : r.1 ≡ record s { blocks = r.1.blocks }
    pub wider : stored s ≤ stored r.1
    pub reached : r.2 ≡ true → required ≤ capacity r.1
    pub cheap : required ≤ capacity s + audio_block_frames → ready p ≤ ready r.0 + 1
    pub same_room : room r.0 ≡ room p

  -- One more block, or the same blocks where there is none.
  pub grown_slot : Pool → LoopSlot F → LoopSlot F
  grown_slot p s = record s { blocks = (add_block p s.blocks).1 }

  pub grown_slot-stored :
      (p : Pool) (s : LoopSlot F)
      → uses_blocks s ≡ true
      → stored (grown_slot p s)
        ≡ (if (add_block p s.blocks).2 then stored s + audio_block_frames else stored s)
  unfolding grown_slot
  grown_slot-stored p s e =
      let n = blocks_pos s e in
      let l = length-add_block p s.blocks in
      elim (Bool-cases (add_block p s.blocks).2) [
        | inl t ↦ rw t (
            let m : length (add_block p s.blocks).1 ≡ length s.blocks + 1 = l ∙ (rw t refl) in
            omega
              (arith, n, m, stored_blocks s n, stored_blocks (grown_slot p s) (omega (arith, m))))
        | inr t ↦ rw t (
            let m : length (add_block p s.blocks).1 ≡ length s.blocks = l ∙ (rw t refl) in
            omega (
              arith,
              n,
              m,
              stored_blocks s n,
              stored_blocks (grown_slot p s) (omega (arith, m, n)),
            ))
      ]

  pub grown_slot_keeps : (p : Pool) (s : LoopSlot F) → (grown_slot p s).data_offset ≡ s.data_offset
  unfolding grown_slot
  grown_slot_keeps p s = refl

  grown_slot_kept :
      (p : Pool) (s : LoopSlot F) → grown_slot p s ≡ record s { blocks = (grown_slot p s).blocks }
  unfolding grown_slot
  grown_slot_kept p s = refl

  -- Once the capacity is there, nothing is added.
  pub extend_storage_enough :
      (fuel required : ℕ) (p : Pool) (s : LoopSlot F)
      → leb required (capacity s) ≡ true
      → extend_storage f P fuel required p s ≡ (p, s, true)
  unfolding extend_storage
  extend_storage_enough zero required p s e = rw e refl
  extend_storage_enough (suc fuel) required p s e = rw e refl

  pub extend_storage_buffer :
      (fuel required : ℕ) (p : Pool) (s : LoopSlot F)
      → leb required (capacity s) ≡ false
      → uses_blocks s ≡ false
      → extend_storage f P fuel required p s ≡ (p, s, false)
  unfolding extend_storage
  extend_storage_buffer zero required p s e b = rw e refl
  extend_storage_buffer (suc fuel) required p s e b = rw e (rw b refl)

  pub extend_storage_chain :
      (fuel required : ℕ) (p : Pool) (s : LoopSlot F)
      → leb required (capacity s) ≡ false
      → uses_blocks s ≡ true
      → extend_storage f P (suc fuel) required p s ≡ (
          if (add_block p s.blocks).2
          then extend_storage f P fuel required (add_block p s.blocks).0 (grown_slot p s)
          else ((add_block p s.blocks).0, grown_slot p s, false))
  unfolding extend_storage grown_slot
  extend_storage_chain fuel required p s e b = rw e (rw b refl)

  unchanged-IsGrown :
      (required : ℕ) (p : Pool) (s : LoopSlot F) (b : Bool)
      → IsPool p
      → IsStored s
      → (b ≡ true → required ≤ capacity s)
      → IsGrown required p s (p, s, b)
  unchanged-IsGrown required p s b v w h = record {
    pool_valid = v;
    formed = w;
    kept = refl;
    wider = omega arith;
    reached = h;
    cheap = λ _. omega arith;
    same_room = refl;
  }

  grown_slot-IsStored :
      (p : Pool) (s : LoopSlot F) → IsPool p → IsStored s → IsStored (grown_slot p s)
  unfolding grown_slot
  grown_slot-IsStored p s v w = record {
    blocks_formed = P.add_block-IsBlock p s.blocks v w.blocks_formed;
    channels = w.channels;
  }

  -- A turn that found a block, before the rest of the loop.
  more-IsGrown :
      (required : ℕ) (p : Pool) (s : LoopSlot F) (r : Pool × LoopSlot F × Bool)
      → s.data_offset ≤ stored s
      → stored (grown_slot p s) ≡ stored s + audio_block_frames
      → (leb required (capacity (grown_slot p s)) ≡ true → r.0 ≡ (add_block p s.blocks).0)
      → IsGrown required (add_block p s.blocks).0 (grown_slot p s) r
      → IsGrown required p s r
  unfolding grown_slot capacity
  more-IsGrown required p s r o wide stop g = record {
    pool_valid = g.pool_valid;
    formed = g.formed;
    kept = g.kept;
    wider = omega (arith, g.wider, wide);
    reached = g.reached;
    cheap = λ h.
        let same =
          stop (
            le→leb required (stored (grown_slot p s) - s.data_offset)
              (omega (arith, h, wide, o))) in
        omega (arith, P.ready-add_block p s.blocks, ap ready same);
    same_room = g.same_room ∙ P.room-add_block p s.blocks;
  }

  grown_slot_wider :
      (p : Pool) (s : LoopSlot F) → uses_blocks s ≡ true → stored s ≤ stored (grown_slot p s)
  grown_slot_wider p s e = ground (arith, grown_slot-stored p s e)

  grown_slot_offset :
      (p : Pool) (s : LoopSlot F)
      → s.data_offset ≤ stored s
      → uses_blocks s ≡ true
      → (grown_slot p s).data_offset ≤ stored (grown_slot p s)
  grown_slot_offset p s o e = omega (arith, o, grown_slot_wider p s e, grown_slot_keeps p s)

  lost-IsGrown :
      (required : ℕ) (p : Pool) (s : LoopSlot F)
      → IsPool p
      → IsStored s
      → uses_blocks s ≡ true
      → IsGrown required p s ((add_block p s.blocks).0, grown_slot p s, false)
  lost-IsGrown required p s v w e = record {
    pool_valid = P.add_block-IsPool p s.blocks v;
    formed = grown_slot-IsStored p s v w;
    kept = grown_slot_kept p s;
    wider = grown_slot_wider p s e;
    reached = λ h. absurd cc;
    cheap = λ _. P.ready-add_block p s.blocks;
    same_room = P.room-add_block p s.blocks;
  }

  chain-IsGrown :
      (required : ℕ) (p : Pool) (s : LoopSlot F)
      → IsPool p
      → IsStored s
      → s.data_offset ≤ stored s
      → uses_blocks s ≡ true
      → (r : Pool × LoopSlot F × Bool)
      → (leb required (capacity (grown_slot p s)) ≡ true → r.0 ≡ (add_block p s.blocks).0)
      → IsGrown required (add_block p s.blocks).0 (grown_slot p s) r
      → IsGrown required p s (
          if (add_block p s.blocks).2 then r else ((add_block p s.blocks).0, grown_slot p s, false))
  chain-IsGrown required p s v w o e r stop g = elim (Bool-cases (add_block p s.blocks).2) [
    | inl got ↦
        let wide : stored (grown_slot p s) ≡ stored s + audio_block_frames =
          ground (arith, grown_slot-stored p s e) in
        rw got (more-IsGrown required p s r o wide stop g)
    | inr lost ↦ rw lost (lost-IsGrown required p s v w e)
  ]

  pub extend_storage-IsGrown :
      (fuel required : ℕ) (p : Pool) (s : LoopSlot F)
      → IsPool p
      → IsStored s
      → s.data_offset ≤ stored s
      → IsGrown required p s (extend_storage f P fuel required p s)
  unfolding extend_storage
  extend_storage-IsGrown zero required p s v w o =
      unchanged-IsGrown required p s (leb required (capacity s)) v w (leb→le required (capacity s))
  extend_storage-IsGrown (suc fuel) required p s v w o =
      elim (Bool-cases (leb required (capacity s))) [
        | inl enough ↦
            subst (IsGrown required p s)
              (sym (extend_storage_enough (suc fuel) required p s enough))
              (unchanged-IsGrown required p s true v w (λ _. leb→le required (capacity s) enough))
        | inr short ↦ elim (Bool-cases (uses_blocks s)) [
          | inr buffer ↦
              subst (IsGrown required p s)
                (sym (extend_storage_buffer (suc fuel) required p s short buffer))
                (unchanged-IsGrown required p s false v w (λ e. absurd cc))
          | inl chain ↦
              subst (IsGrown required p s)
                (sym (extend_storage_chain fuel required p s short chain))
                (chain-IsGrown required p s v w o chain _
                  (λ e. ap (λ x. x.0) (extend_storage_enough fuel required _ (grown_slot p s) e))
                  (extend_storage-IsGrown fuel required (add_block p s.blocks).0 (grown_slot p s)
                    (P.add_block-IsPool p s.blocks v) (grown_slot-IsStored p s v w)
                    (grown_slot_offset p s o chain)))
        ]
      ]
