-- ===== src/Engine/Runtime/Clear.antt =====
-- src/native_dsp_graph.rs: `Erase`, `DeletePulse` and `SetPulseFromLoop` in a well-formed engine.
use freewheeling_plus.Prelude.{
  ℕ, suc, ◌≤◌, ◌≡◌, refl, sym, ap, max, Bool, true, false, none, some, List, [], ◌∷◌, length,
  length-set, get_elem?, All, All-get, if◌then◌else◌, arith, Bool-cases, Option-cases, inl, inr,
  subst,
}
use freewheeling_plus.Prelude.Words.{u32_max}
use freewheeling_plus.Prelude.Floats.{Float32}
use freewheeling_plus.Engine.Command.{RuntimeCommand}
use freewheeling_plus.Engine.Blocks.{BlockPool}
use freewheeling_plus.Engine.Pulse.{PulseClock}
use freewheeling_plus.Engine.Pulse.Commands.{set_pulse_from_loop, delete_pulse}
use freewheeling_plus.Engine.Loop.{LoopSlot, capacity}
use freewheeling_plus.Engine.Runtime.{Engine, Recorder, put_loop, reject}
use freewheeling_plus.Engine.Runtime.Loops.{
  filled, is_slot, cleared, erase_slot, forget, erase, erase_synced, delete_pulse_loops,
  select_pulse,
}
use freewheeling_plus.Engine.Runtime.Valid.{
  IsLoop, IsEngine, put_loop-IsEngine, paid-IsEngine, changed-IsLoop,
}
use freewheeling_plus.Engine.Runtime.Change.{renewed-IsEngine, reject-IsEngine, filled-IsLoop}

-- What is forgotten was known.
forget_recording :
    (slot : ℕ) (r : Recorder) (i : ℕ) → (forget slot r).recording ≡ some i → r.recording ≡ some i
unfolding forget
forget_recording slot r i h = elim (Bool-cases (is_slot r.recording slot)) [
  | inl t ↦ absurd cc
  | inr t ↦ cc
]

forget_if :
    (b : Bool) (slot : ℕ) (r : Recorder) (i : ℕ)
    → (if b then forget slot r else r).recording ≡ some i
    → r.recording ≡ some i
forget_if true slot r i h = forget_recording slot r i h
forget_if false slot r i h = h

module _ (f : Float32) (P : BlockPool f.F) where
  open f use {F}
  open P use {Pool, IsPool, release_blocks}

  -- A loop without frames, with the blocks that could not be given back.
  erase_slot-IsLoop :
      (p : Pool) (s : LoopSlot F)
      → IsPool p
      → IsLoop s
      → IsPool (erase_slot f P p s).0 × IsLoop (erase_slot f P p s).1
  unfolding erase_slot cleared capacity
  erase_slot-IsLoop p s v w = (
    P.release_blocks-IsPool p s.blocks v w.roomy.formed.blocks_formed,
    record {
      roomy = record {
        formed = record {
          blocks_formed = P.release_blocks-IsBlock p s.blocks w.roomy.formed.blocks_formed;
          channels = w.roomy.formed.channels;
        };
        offset_fits = omega arith;
        fits = omega arith;
        short = omega arith;
      };
      placed = λ h. h;
    },
  )

  pub erase_found :
      (e : Engine P) (command : RuntimeCommand F) (slot : ℕ) (s : LoopSlot F)
      → get_elem? e.loops slot ≡ some s
      → erase f P e command slot
        ≡ put_loop
            (record e {
              recorder = forget slot e.recorder;
              loop_storage = (erase_slot f P e.loop_storage s).0;
            })
            slot
            (erase_slot f P e.loop_storage s).1
  unfolding erase
  erase_found e command slot s h = rw (h, erase) refl

  pub erase_missing :
      (e : Engine P) (command : RuntimeCommand F) (slot : ℕ)
      → get_elem? e.loops slot ≡ none
      → erase f P e command slot ≡ reject (record e { recorder = forget slot e.recorder }) command
  unfolding erase
  erase_missing e command slot h = rw (h, erase) refl

  forgot-IsEngine :
      (e : Engine P) (slot : ℕ)
      → IsEngine e
      → IsEngine (record e { recorder = forget slot e.recorder })
  forgot-IsEngine e slot v =
      renewed-IsEngine e e.clock (forget slot e.recorder) v
        (λ i h. v.recorded i (forget_recording slot e.recorder i h)) v.phase_fits

  pub erase-IsEngine :
      (e : Engine P) (command : RuntimeCommand F) (slot : ℕ)
      → IsEngine e
      → IsEngine (erase f P e command slot)
  erase-IsEngine e command slot v = elim (Option-cases (get_elem? e.loops slot)) [
    | inl n ↦
        subst IsEngine (sym (erase_missing e command slot n))
          (reject-IsEngine _ command (forgot-IsEngine e slot v))
    | inr s ↦
        let k =
          erase_slot-IsLoop e.loop_storage s.0 v.pool_valid
            (All-get IsLoop e.loops slot s.0 v.loops_valid s.1) in
        let p = (erase_slot f P e.loop_storage s.0).0 in
        subst IsEngine (sym (erase_found e command slot s.0 s.1))
          (put_loop-IsEngine _ slot _ (paid-IsEngine _ p (forgot-IsEngine e slot v) k.0) k.1)
  ]

  erase_if :
      (b : Bool) (p : Pool) (s : LoopSlot F)
      → IsPool p
      → IsLoop s
      → IsPool (if b then erase_slot f P p s else (p, s)).0
        × IsLoop (if b then erase_slot f P p s else (p, s)).1
  erase_if true p s v w = erase_slot-IsLoop p s v w
  erase_if false p s v w = (v, w)

  -- What the loop over the loops of the pulse leaves.
  erase_synced_kept :
      (index : ℕ) (p : Pool) (r : Recorder) (ss : List (LoopSlot F))
      → IsPool p
      → All IsLoop ss
      → IsPool (erase_synced f P index p r ss).0
        × All IsLoop (erase_synced f P index p r ss).2
        × (length (erase_synced f P index p r ss).2 ≡ length ss)
        × ((i : ℕ) → (erase_synced f P index p r ss).1.recording ≡ some i → r.recording ≡ some i)
  unfolding erase_synced
  erase_synced_kept index p r [] v w = (v, tt, refl, λ i h. h)
  erase_synced_kept index p r (s ∷ ss) v w =
      let k = erase_if s.pulse_synced p s v w.0 in
      let gone = if s.pulse_synced then erase_slot f P p s else (p, s) in
      let forgotten = if s.pulse_synced then forget index r else r in
      let rest = erase_synced_kept (suc index) gone.0 forgotten ss k.0 w.1 in
      (rest.0, (k.1, rest.1), ap suc rest.2, λ i h. forget_if s.pulse_synced index r i (rest.3 i h))

  pub delete_pulse_loops-IsEngine :
      (e : Engine P) → IsEngine e → IsEngine (delete_pulse_loops f P e)
  unfolding delete_pulse_loops delete_pulse
  delete_pulse_loops-IsEngine e v =
      let k = erase_synced_kept 0 e.loop_storage e.recorder e.loops v.pool_valid v.loops_valid in
      record {
        pool_valid = k.0;
        loops_valid = k.1;
        recorded = λ i h. omega (arith, v.recorded i (k.3 i h), k.2);
        phase_fits = v.phase_fits;
        history_level = v.history_level;
        history_fits = v.history_fits;
        transfers_valid = v.transfers_valid;
      }

  set_pulse_from_loop_fits :
      (c : PulseClock) (len position : ℕ)
      → (set_pulse_from_loop c len position).pulse_position ≤ u32_max
  unfolding set_pulse_from_loop
  set_pulse_from_loop_fits c len position = omega arith

  pub select_found :
      (e : Engine P) (command : RuntimeCommand F) (slot : ℕ) (s : LoopSlot F)
      → e.clock.pulse_sync_active ≡ false
      → filled e.loops slot ≡ some s
      → select_pulse f P e command slot
        ≡ record (put_loop e slot (record s {
          pulse_synced = true;
          pulse_beats = max e.clock.pulse_subdivide 1;
          capture_alignment_frames = 0;
          boundary_fade_position = none;
        })) { clock = set_pulse_from_loop e.clock s.len s.position }
  unfolding select_pulse
  select_found e command slot s off h = cc

  pub select_active :
      (e : Engine P) (command : RuntimeCommand F) (slot : ℕ)
      → e.clock.pulse_sync_active ≡ true
      → select_pulse f P e command slot ≡ e
  unfolding select_pulse
  select_active e command slot on = cc

  pub select_missing :
      (e : Engine P) (command : RuntimeCommand F) (slot : ℕ)
      → e.clock.pulse_sync_active ≡ false
      → filled e.loops slot ≡ none
      → select_pulse f P e command slot ≡ reject e command
  unfolding select_pulse
  select_missing e command slot off h = cc

  pub select_pulse-IsEngine :
      (e : Engine P) (command : RuntimeCommand F) (slot : ℕ)
      → IsEngine e
      → IsEngine (select_pulse f P e command slot)
  unfolding put_loop
  select_pulse-IsEngine e command slot v = elim (Bool-cases e.clock.pulse_sync_active) [
    | inl on ↦ subst IsEngine (sym (select_active e command slot on)) v
    | inr off ↦ elim (Option-cases (filled e.loops slot)) [
      | inl n ↦
          subst IsEngine (sym (select_missing e command slot off n)) (reject-IsEngine e command v)
      | inr s ↦
          let found = filled-IsLoop e slot s.0 v s.1 in
          let t : LoopSlot F = record s.0 {
            pulse_synced = true;
            pulse_beats = max e.clock.pulse_subdivide 1;
            capture_alignment_frames = 0;
            boundary_fade_position = none;
          } in
          let changed =
            changed-IsLoop s.0 t found.2
              (record {
                left = refl;
                right = refl;
                blocks = refl;
                data_offset = refl;
                len = omega arith;
              })
              found.2.placed in
          subst IsEngine (sym (select_found e command slot s.0 off s.1)) (
            renewed-IsEngine (put_loop e slot t) (set_pulse_from_loop e.clock s.0.len s.0.position)
              e.recorder (put_loop-IsEngine e slot t v changed)
              (λ i h. omega (arith, v.recorded i h, length-set e.loops slot t))
              (set_pulse_from_loop_fits e.clock s.0.len s.0.position))
    ]
  ]
