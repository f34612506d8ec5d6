-- ===== src/Engine/Runtime/Follow.antt =====
-- src/native_dsp_graph.rs: steps that leave the storage of the idle loops as it was.
use freewheeling_plus.Prelude.{
  ℕ, ◌≡◌, refl, sym, ap, ◌∙◌, Bool, false, ◌||◌, some, set, get_elem?, get_elem?-set_self, All-get,
  arith,
}
use freewheeling_plus.Prelude.Floats.{Float32}
use freewheeling_plus.Engine.Blocks.{BlockPool}
use freewheeling_plus.Engine.Pulse.{PulseClock}
use freewheeling_plus.Engine.Loop.{LoopSlot}
use freewheeling_plus.Engine.Runtime.{Engine, Recorder, put_loop, is_overdubbing, is_recording}
use freewheeling_plus.Engine.Runtime.Recording.{stop_recording}
use freewheeling_plus.Engine.Runtime.Room.{IsKept, kept-IsRoomy}
use freewheeling_plus.Engine.Runtime.Keep.{is_busy, Keeps, Keeps-trans, set-Keeps}
use freewheeling_plus.Engine.Runtime.Valid.{IsLoop, IsEngine, put_loop-IsEngine}
use freewheeling_plus.Engine.Runtime.Open.{IsEngine-IsOpen, put_loop-IsOpen}
use freewheeling_plus.Engine.Runtime.Stop.{ended-Keeps, stop_open-IsStopped}

module _ (f : Float32) (P : BlockPool f.F) where
  open f use {F}
  open P use {IsPool, ready, room}

  -- The clock and the recorder may change, as long as the same loop is recorded.
  pub timed-IsEngine :
      (e : Engine P) (c : PulseClock) (r : Recorder)
      → IsEngine e
      → r.recording ≡ e.recorder.recording
      → c.pulse_position ≡ e.clock.pulse_position
      → IsEngine (record e { clock = c; recorder = r })
  timed-IsEngine e c r v same phase = record {
    pool_valid = v.pool_valid;
    loops_valid = v.loops_valid;
    recorded = λ i h. v.recorded i (sym same ∙ h);
    phase_fits = omega (arith, v.phase_fits, phase);
    history_level = v.history_level;
    history_fits = v.history_fits;
    transfers_valid = v.transfers_valid;
  }

  -- A well-formed engine after some step, which left the storage of the idle loops as it was.
  pub record Follows (e t : Engine P) : Type 0 where
    pub valid : IsEngine t
    pub keeps : (slot : ℕ) → Keeps slot e.loops t.loops

  pub timed-Follows :
      (e : Engine P) (c : PulseClock) (r : Recorder) (t : Engine P)
      → Follows (record e { clock = c; recorder = r }) t
      → Follows e t
  timed-Follows e c r t g = record { valid = g.valid; keeps = g.keeps }

  pub changed-Keeps :
      (e : Engine P) (index slot : ℕ) (s t : LoopSlot F)
      → get_elem? e.loops index ≡ some s
      → IsKept s t
      → t.mode ≡ s.mode
      → Keeps slot e.loops (set e.loops index t)
  unfolding is_busy
  changed-Keeps e index slot s t at k same = set-Keeps slot index e.loops s t at (λ i. record {
    left = k.left;
    right = k.right;
    blocks = k.blocks;
    data_offset = k.data_offset;
    idle = ap (λ m. is_recording m || is_overdubbing m) same ∙ i;
  })

  -- A stop after the recorded loop was changed, and perhaps cut.
  pub cut_stop :
      (e : Engine P) (index : ℕ) (s t : LoopSlot F) (notify : Bool)
      → IsEngine e
      → e.recorder.recording ≡ some index
      → get_elem? e.loops index ≡ some s
      → IsKept s t
      → t.mode ≡ s.mode
      → is_overdubbing s.mode ≡ false
      → (u : Engine P) × (stop_recording f P (put_loop e index t) notify ≡ some u) × Follows e u
  unfolding put_loop
  cut_stop e index s t notify v r at k same m =
      let w = All-get IsLoop e.loops index s v.loops_valid at in
      let u =
        stop_open-IsStopped f P (put_loop e index t) index t notify
          (put_loop-IsOpen f P e index t (IsEngine-IsOpen f P e index v)) r
          (get_elem?-set_self e.loops index t (v.recorded index r)) (kept-IsRoomy s t k w.roomy)
          (λ o. absurd cc) in
      (
        u.0,
        u.1,
        record {
          valid = u.2.valid;
          keeps = λ slot.
              Keeps-trans slot e.loops (set e.loops index t) u.0.loops
                (changed-Keeps e index slot s t at k same)
                (ended-Keeps f P (put_loop e index t) u.0 index slot t notify
                  (get_elem?-set_self e.loops index t (v.recorded index r)) u.3);
        },
      )

  -- The recorded loop with other beats, while the recording goes on.
  pub go_on :
      (e : Engine P) (index : ℕ) (s : LoopSlot F) (beats : ℕ)
      → IsEngine e
      → get_elem? e.loops index ≡ some s
      → Follows e (put_loop e index (record s { pulse_beats = beats }))
  unfolding put_loop
  go_on e index s beats v at =
      let w = All-get IsLoop e.loops index s v.loops_valid at in
      let k : IsKept s (record s { pulse_beats = beats }) = record {
        left = refl;
        right = refl;
        blocks = refl;
        data_offset = refl;
        len = omega arith;
      } in
      record {
        valid =
            put_loop-IsEngine e index _ v
              (record { roomy = kept-IsRoomy s _ k w.roomy; placed = w.placed });
        keeps = λ slot. changed-Keeps e index slot s _ at k refl;
      }
