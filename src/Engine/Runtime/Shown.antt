-- ===== src/Engine/Runtime/Shown.antt =====
-- src/native_dsp_graph.rs: a snapshot of well-formed loops reads frames that they have.
use freewheeling_plus.Prelude.{
  ℕ, ◌<◌, ◌≡◌, refl, ap, ◌==◌, some, List, [], ◌∷◌, All, arith, Bool-cases, Option-cases, sym, ◌∙◌,
  inl, inr,
}
use mathlib.Core.Option.{some-injective}
use freewheeling_plus.Prelude.Floats.{Float32}
use freewheeling_plus.Engine.Blocks.{BlockPool}
use freewheeling_plus.Engine.Loop.{LoopSlot}
use freewheeling_plus.Engine.Loop.Samples.{sample_at-lt}
use freewheeling_plus.Engine.Runtime.{Engine, RuntimeLoopSnapshot, snapshot_published, send_status}
use freewheeling_plus.Engine.Runtime.Snapshot.{
  waveform_points, frame_of, shown, waveform, loop_snapshot, loop_snapshots, snapshot,
}
use freewheeling_plus.Engine.Runtime.Valid.{IsLoop, IsEngine, send_status-IsEngine}

ShowsAt : ℕ → Type 0
ShowsAt point = (len : ℕ) → 0 < len → frame_of len point < len

points-ShowsAt : All ShowsAt waveform_points
unfolding frame_of ShowsAt
points-ShowsAt = (
  λ len h. omega (arith, h),
  (
    λ len h. omega (arith, h),
    (
      λ len h. omega (arith, h),
      (
        λ len h. omega (arith, h),
        (
          λ len h. omega (arith, h),
          (λ len h. omega (arith, h), (λ len h. omega (arith, h), (λ len h. omega (arith, h), tt))),
        ),
      ),
    ),
  ),
)

module _ (f : Float32) where
  open f use {F, of_ℕ, add, mul, div}

  shown-some :
      (s : LoopSlot F) (point : ℕ) → IsLoop s → ShowsAt point → (x : F) × (shown f s point ≡ some x)
  unfolding shown ShowsAt
  shown-some s point v w = elim (Bool-cases (s.len == 0)) [
    | inl e ↦ (of_ℕ 0, rw e refl)
    | inr e ↦
        let inside = w s.len (ground arith) in
        let x =
          sample_at-lt s (frame_of s.len point) v.roomy.formed
            (omega (arith, inside, v.roomy.fits)) in
        (mul (add x.0.0 x.0.1) (div (of_ℕ 1) (of_ℕ 2)), rw e (rw x.1 refl))
  ]

  waveform-some :
      (s : LoopSlot F) (points : List ℕ)
      → IsLoop s
      → All ShowsAt points
      → (xs : List F) × (waveform f s points ≡ some xs)
  unfolding waveform
  waveform-some s [] v w = ([], refl)
  waveform-some s (point ∷ points) v w =
      let x = shown-some s point v w.0 in
      let xs = waveform-some s points v w.1 in (x.0 ∷ xs.0, rw x.1 (rw xs.1 refl))

  loop_snapshots-some :
      (loops : List (LoopSlot F))
      → All IsLoop loops
      → (shots : List (RuntimeLoopSnapshot F)) × (loop_snapshots f loops ≡ some shots)
  unfolding loop_snapshots
  loop_snapshots-some [] v = ([], refl)
  loop_snapshots-some (s ∷ loops) v =
      let w = waveform-some s waveform_points v.0 points-ShowsAt in
      let rest = loop_snapshots-some loops v.1 in
      (loop_snapshot f s w.0 ∷ rest.0, rw w.1 (rw rest.1 refl))

  pub snapshot-IsEngine :
      {P : BlockPool F} (e : Engine P)
      → IsEngine e
      → (t : Engine P) × (snapshot f e ≡ some t) × IsEngine t
  unfolding snapshot
  snapshot-IsEngine e v =
      let shots = loop_snapshots-some e.loops v.loops_valid in
      (
        send_status e (snapshot_published shots.0),
        rw shots.1 refl,
        send_status-IsEngine e (snapshot_published shots.0) v,
      )

  pub snapshot-loops :
      {P : BlockPool F} (e t : Engine P) → snapshot f e ≡ some t → t.loops ≡ e.loops
  unfolding snapshot send_status
  snapshot-loops {P} e t r = elim (Option-cases (loop_snapshots f e.loops)) [
    | inl nothing ↦ absurd cc
    | inr shots ↦ sym (
        ap (λ (x : Engine P). x.loops)
          (some-injective (send_status e (snapshot_published shots.0)) t
            (sym (rw shots.1 refl) ∙ r)))
  ]
