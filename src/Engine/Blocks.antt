-- ===== src/Engine/Blocks.antt =====
-- src/native_dsp_graph.rs: what the loops rely on of the pool that gives them blocks to record into,
-- `LoopStoragePool`. A block has a left and a right channel of the same fixed length.
use freewheeling_plus.Prelude.{
  ℕ, ◌+◌, ◌≤◌, ◌<◌, ◌≡◌, Bool, true, List, [], length, All, if◌then◌else◌,
}
use freewheeling_plus.Engine.Transfer.{StereoTransfer}

abbrev pub audio_block_frames : ℕ
audio_block_frames = 20000

pub record IsBlock {F : Type 0} (b : StereoTransfer F) : Type 0 where
  pub left_frames : length b.left ≡ audio_block_frames
  pub right_frames : length b.right ≡ audio_block_frames

-- `add_block` and `release_blocks` work on the chain of a loop. `ready` counts the blocks that can
-- be had without a refill, and `room` those that can be handed back.
pub record BlockPool (F : Type 0) : Type 1 where
  pub Pool : Type 0
  pub IsPool : Pool → Type 0
  pub ready : Pool → ℕ
  pub room : Pool → ℕ
  pub add_block : Pool → List (StereoTransfer F) → Pool × List (StereoTransfer F) × Bool
  pub release_blocks : Pool → List (StereoTransfer F) → Pool × List (StereoTransfer F)
  pub add_block-IsPool :
      (p : Pool) (bs : List (StereoTransfer F)) → IsPool p → IsPool (add_block p bs).0
  pub add_block-IsBlock :
      (p : Pool) (bs : List (StereoTransfer F))
      → IsPool p
      → All IsBlock bs
      → All IsBlock (add_block p bs).1
  pub length-add_block :
      (p : Pool) (bs : List (StereoTransfer F))
      → length (add_block p bs).1 ≡ (if (add_block p bs).2 then length bs + 1 else length bs)
  pub add_block_ready :
      (p : Pool) (bs : List (StereoTransfer F)) → 0 < ready p → (add_block p bs).2 ≡ true
  pub ready-add_block :
      (p : Pool) (bs : List (StereoTransfer F)) → ready p ≤ ready (add_block p bs).0 + 1
  pub room-add_block : (p : Pool) (bs : List (StereoTransfer F)) → room (add_block p bs).0 ≡ room p
  pub release_blocks-IsPool :
      (p : Pool) (bs : List (StereoTransfer F))
      → IsPool p
      → All IsBlock bs
      → IsPool (release_blocks p bs).0
  pub release_blocks-IsBlock :
      (p : Pool) (bs : List (StereoTransfer F))
      → All IsBlock bs
      → All IsBlock (release_blocks p bs).1
  pub ready-release_blocks :
      (p : Pool) (bs : List (StereoTransfer F)) → ready (release_blocks p bs).0 ≡ ready p
  pub release_blocks_room :
      (p : Pool) (bs : List (StereoTransfer F)) → length bs ≤ room p → (release_blocks p bs).1 ≡ []
