-- ===== src/Engine/Loop.antt =====
-- src/native_dsp_graph.rs: `LoopSlot`, one loop with its PCM. An index out of range, at which Rust
-- panics, is `none`. Left out are the fields that only the display and the running fades of an
-- overdub read: `scope`, `recent_peak` and `overdub_jump`.
pub mod Samples
pub mod Smooth
use freewheeling_plus.Prelude.{
  ℕ, zero, suc, ◌+◌, ◌-◌, ◌*◌, ◌/◌, ◌%◌, Bool, true, false, not, ◌&&◌, Option, none, some, List, [],
  ◌∷◌, ltb, if◌then◌else◌, length, get_elem?, set,
}
use freewheeling_plus.Prelude.Options.{◌>>=◌}
use freewheeling_plus.Prelude.Floats.{Float32}
use freewheeling_plus.Engine.Command.{LoopMode}
use freewheeling_plus.Engine.Transfer.{StereoTransfer}
use freewheeling_plus.Engine.Blocks.{audio_block_frames}

abbrev pub loop_smooth_frames : ℕ
loop_smooth_frames = 64

pub record LoopSlot (F : Type 0) : Type 0 where
  pub left : List F
  pub right : List F
  pub blocks : List (StereoTransfer F)
  pub data_offset : ℕ
  pub len : ℕ
  pub position : ℕ
  pub mode : LoopMode
  pub gain : F
  pub trigger_gain : F
  pub gain_delta : F
  pub feedback : F
  pub feedback_last : F
  pub pulse_synced : Bool
  pub pulse_beats : ℕ
  pub capture_alignment_frames : ℕ
  pub boundary_fade_position : Option ℕ
  pub overdub_fade_out : Option (ℕ × ℕ)
  pub recorded_frames : ℕ

unfoldable pub is_nil {ℓ} : {A : Type ℓ} → List A → Bool
is_nil [] = true
is_nil (x ∷ xs) = false

-- `get` of the left and of the right channel at an index.
unfoldable pub stereo_at : {F : Type 0} → List F → List F → ℕ → Option (F × F)
stereo_at left right i = do l ← get_elem? left i; r ← get_elem? right i; some (l, r)

module _ {F : Type 0} where
  unfoldable pub uses_blocks : LoopSlot F → Bool
  uses_blocks s = not (is_nil s.blocks)

  -- The frames of the storage, before those that a trim left out.
  unfoldable pub stored : LoopSlot F → ℕ
  stored s = if uses_blocks s then length s.blocks * audio_block_frames else length s.left

  unfoldable pub capacity : LoopSlot F → ℕ
  capacity s = stored s - s.data_offset

  unfoldable pub sample_at : LoopSlot F → ℕ → Option (F × F)
  sample_at s frame =
      let at = frame + s.data_offset in
      if uses_blocks s
      then (do
        block ← get_elem? s.blocks (at / audio_block_frames)
        stereo_at block.left block.right (at % audio_block_frames))
      else stereo_at s.left s.right at

  -- The write into a block, or a buffer, at an index that both channels have.
  pub set_block : StereoTransfer F → ℕ → F → F → Option (StereoTransfer F)
  set_block b i l r =
      if ltb i (length b.left) && ltb i (length b.right)
      then some (record b { left = set b.left i l; right = set b.right i r })
      else none

  pub set_buffer : LoopSlot F → ℕ → F → F → Option (LoopSlot F)
  set_buffer s i l r =
      if ltb i (length s.left) && ltb i (length s.right)
      then some (record s { left = set s.left i l; right = set s.right i r })
      else none

  unfoldable pub set_sample : LoopSlot F → ℕ → F → F → Option (LoopSlot F)
  set_sample s frame l r =
      let at = frame + s.data_offset in
      if uses_blocks s
      then (do
        block ← get_elem? s.blocks (at / audio_block_frames)
        written ← set_block block (at % audio_block_frames) l r
        some (record s { blocks = set s.blocks (at / audio_block_frames) written }))
      else set_buffer s at l r

  -- The loop of `append_unsynchronised_crossfade_tail` that copies the first `n` frames from
  -- `offset` on behind `len`.
  unfoldable pub copy_head : (n offset len : ℕ) → LoopSlot F → Option (LoopSlot F)
  copy_head zero offset len s = some s
  copy_head (suc n) offset len s = do
    sample ← sample_at s offset
    written ← set_sample s (len + offset) sample.0 sample.1
    copy_head n (suc offset) len written

module _ (f : Float32) where
  open f use {F, of_ℕ, add, sub, mul, div}

  pub blend : F → F → F → F
  blend mix start end = add (mul mix start) (mul (sub (of_ℕ 1) mix) end)

  -- The loop of `smooth_unsynchronised_loop_endpoints`, from `offset` on.
  pub blend_loop : (n offset last_start : ℕ) → LoopSlot F → Option (LoopSlot F)
  blend_loop zero offset last_start s = some s
  blend_loop (suc n) offset last_start s = do
    let mix = div (of_ℕ offset) (of_ℕ loop_smooth_frames)
    start ← sample_at s offset
    end ← sample_at s (last_start + offset)
    written ← set_sample s (last_start + offset) (blend mix start.0 end.0) (blend mix start.1 end.1)
    blend_loop n (suc offset) last_start written

  unfoldable pub smooth_endpoints : LoopSlot F → Option (LoopSlot F)
  smooth_endpoints s = if ltb s.len loop_smooth_frames then some s else (do
    blended ← blend_loop loop_smooth_frames 0 (s.len - loop_smooth_frames) s
    some (record blended {
      data_offset = blended.data_offset + loop_smooth_frames;
      len = blended.len - loop_smooth_frames;
    }))
