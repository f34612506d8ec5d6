-- ===== src/Engine/Runtime/Snapshot.antt =====
-- src/native_dsp_graph.rs: `RequestSnapshot`, for the loops of a snapshot. `none` is the panic of an
-- index out of range. Left out are the ring that the snapshot is published through, the fields that
-- `snapshot` copies as they are, and the peaks for the display, of fixed lengths.
use freewheeling_plus.Prelude.{
  ℕ, ◌-◌, ◌*◌, ◌/◌, ◌%◌, ◌^◌, ◌==◌, Option, some, List, [], ◌∷◌, min, if◌then◌else◌,
}
use freewheeling_plus.Prelude.Options.{◌>>=◌}
use freewheeling_plus.Prelude.Words.{usize_max}
use freewheeling_plus.Prelude.Floats.{Float32}
use freewheeling_plus.Engine.Blocks.{BlockPool}
use freewheeling_plus.Engine.Loop.{LoopSlot, sample_at}
use freewheeling_plus.Engine.Runtime.{Engine, RuntimeLoopSnapshot, snapshot_published, send_status}

-- The points 0 to 7 of a waveform, `WAVEFORM_SAMPLES` of them.
abbrev pub waveform_points : List ℕ
waveform_points = 0 ∷ 1 ∷ 2 ∷ 3 ∷ 4 ∷ 5 ∷ 6 ∷ 7 ∷ []

-- The frame that a point shows.
unfoldable pub frame_of : ℕ → ℕ → ℕ
frame_of len point = min (point * (len - 1)) usize_max / 7

module _ (f : Float32) where
  open f use {F, of_ℕ, add, mul, div}

  unfoldable pub shown : LoopSlot F → ℕ → Option F
  shown s point = if s.len == 0 then some (of_ℕ 0) else (do
    sample ← sample_at s (frame_of s.len point)
    some (mul (add sample.0 sample.1) (div (of_ℕ 1) (of_ℕ 2))))

  unfoldable pub waveform : LoopSlot F → List ℕ → Option (List F)
  waveform s [] = some []
  waveform s (point ∷ points) = do
    sample ← shown s point
    samples ← waveform s points
    some (sample ∷ samples)

  pub loop_snapshot : LoopSlot F → List F → RuntimeLoopSnapshot F
  loop_snapshot s wave = record {
    mode = s.mode;
    frames = s.len % 2 ^ 32;
    position = s.position % 2 ^ 32;
    gain = s.gain;
    trigger_gain = s.trigger_gain;
    gain_delta = s.gain_delta;
    waveform = wave;
  }

  unfoldable pub loop_snapshots : List (LoopSlot F) → Option (List (RuntimeLoopSnapshot F))
  loop_snapshots [] = some []
  loop_snapshots (s ∷ loops) = do
    wave ← waveform s waveform_points
    rest ← loop_snapshots loops
    some (loop_snapshot s wave ∷ rest)

  unfoldable pub snapshot : {P : BlockPool F} → Engine P → Option (Engine P)
  snapshot e = do loops ← loop_snapshots e.loops; some (send_status e (snapshot_published loops))
