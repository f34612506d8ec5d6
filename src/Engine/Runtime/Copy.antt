-- ===== src/Engine/Runtime/Copy.antt =====
-- src/native_dsp_graph.rs: `copy_range_to` copies the frames of a loop.
use freewheeling_plus.Prelude.{
  ℕ, zero, suc, ◌+◌, ◌≤◌, ◌<◌, ◌≡◌, ◌≢◌, refl, sym, ◌∙◌, subst, true, ◌&&◌, some, ltb, length,
  length-set, set, get_elem?, get_elem?-set_self, get_elem?-set_ne, arith, dec_lt,
}
use freewheeling_plus.Prelude.Options.{◌>>=◌}
use freewheeling_plus.Engine.Transfer.{StereoTransfer}
use freewheeling_plus.Engine.Loop.{LoopSlot, capacity, sample_at, stereo_at}
use freewheeling_plus.Engine.Loop.Samples.{IsStored, sample_at-lt}
use freewheeling_plus.Engine.Runtime.Pcm.{copy_range}

module _ {F : Type 0} where
  -- The first `n` frames of the vectors are those of the loop.
  unfoldable pub HasFrames : LoopSlot F → ℕ → StereoTransfer F → Type 0
  HasFrames s n pcm = (i : ℕ) → i < n → stereo_at pcm.left pcm.right i ≡ sample_at s i

  pub record IsCopied (s : LoopSlot F) (n : ℕ) (pcm q : StereoTransfer F) : Type 0 where
    pub frames : HasFrames s n q
    pub same_left : length q.left ≡ length pcm.left
    pub same_right : length q.right ≡ length pcm.right
    pub same_len : q.len ≡ pcm.len

  write_at : StereoTransfer F → ℕ → F × F → StereoTransfer F
  write_at pcm i x = record pcm { left = set pcm.left i x.0; right = set pcm.right i x.1 }

  write_at_kept :
      (pcm : StereoTransfer F) (i : ℕ) (x : F × F)
      → (length (write_at pcm i x).left ≡ length pcm.left)
        × (length (write_at pcm i x).right ≡ length pcm.right)
        × ((write_at pcm i x).len ≡ pcm.len)
  unfolding write_at
  write_at_kept pcm i x = (length-set pcm.left i x.0, length-set pcm.right i x.1, refl)

  write_at-HasFrames :
      (s : LoopSlot F) (n : ℕ) (pcm : StereoTransfer F) (x : F × F)
      → HasFrames s n pcm
      → sample_at s n ≡ some x
      → n < length pcm.left
      → n < length pcm.right
      → HasFrames s (suc n) (write_at pcm n x)
  unfolding HasFrames write_at stereo_at
  write_at-HasFrames s n pcm x h e l r i b = elim (dec_lt i n) [
    | yes lt ↦
        let ne : n ≢ i = λ p. absurd (omega (arith, lt, p)) in
        rw (get_elem?-set_ne pcm.left x.0 ne) (rw (get_elem?-set_ne pcm.right x.1 ne) (h i lt))
    | no ge ↦
        let same : n ≡ i = omega arith in
        subst
          (λ (k : ℕ).
            (do
              a ← get_elem? (set pcm.left n x.0) k
              b ← get_elem? (set pcm.right n x.1) k
              some (a, b))
            ≡ sample_at s k)
          same
          (rw (get_elem?-set_self pcm.left n x.0 l)
            (rw (get_elem?-set_self pcm.right n x.1 r) (sym e)))
  ]

  pub copy_range-IsCopied :
      (n cursor : ℕ) (s : LoopSlot F) (pcm : StereoTransfer F)
      → IsStored s
      → HasFrames s cursor pcm
      → cursor + n ≤ capacity s
      → cursor + n ≤ length pcm.left
      → length pcm.left ≡ length pcm.right
      → (q : StereoTransfer F) × (copy_range n cursor s pcm ≡ some q)
        × IsCopied s (cursor + n) pcm q
  unfolding copy_range HasFrames write_at
  copy_range-IsCopied zero cursor s pcm v h c l e = (
    pcm,
    refl,
    record {
      frames = λ i b. h i (omega (arith, b));
      same_left = refl;
      same_right = refl;
      same_len = refl;
    },
  )
  copy_range-IsCopied (suc n) cursor s pcm v h c l e =
      let x = sample_at-lt s cursor v (omega (arith, c)) in
      let w = write_at pcm cursor x.0 in
      let k = write_at_kept pcm cursor x.0 in
      let both : (ltb cursor (length pcm.left) && ltb cursor (length pcm.right)) ≡ true =
        ground (arith, l, e) in
      let rest =
        copy_range-IsCopied n (suc cursor) s w v
          (write_at-HasFrames s cursor pcm x.0 h x.1 (omega (arith, l)) (omega (arith, l, e)))
          (omega (arith, c)) (omega (arith, l, k.0)) (k.0 ∙ (e ∙ sym k.1)) in
      (
        rest.0,
        rw x.1 (rw both rest.1),
        record {
          frames = λ i b. rest.2.frames i (omega (arith, b));
          same_left = rest.2.same_left ∙ k.0;
          same_right = rest.2.same_right ∙ k.1;
          same_len = rest.2.same_len ∙ k.2;
        },
      )
