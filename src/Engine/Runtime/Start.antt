-- ===== src/Engine/Runtime/Start.antt =====
-- src/native_dsp_graph.rs: `Record` in a well-formed engine.
use freewheeling_plus.Prelude.{
  ℕ, ◌*◌, ◌≤◌, ◌<◌, ◌≡◌, ◌≢◌, refl, ap, ◌∙◌, subst, Bool, true, not, none, some, List, leb, length,
  set, get_elem?, get_elem?-lt, All, All-get, if◌then◌else◌, arith, Bool-cases, Option-cases, inl,
  inr,
}
use mathlib.Core.Option.{some-injective}
use freewheeling_plus.Prelude.Floats.{Float32}
use freewheeling_plus.Engine.Runtime.Prefill.{prefill-IsLoop}
use freewheeling_plus.Engine.Command.{RuntimeCommand}
use freewheeling_plus.Engine.Transfer.{StereoTransfer}
use freewheeling_plus.Engine.Blocks.{BlockPool, IsBlock}
use freewheeling_plus.Engine.Pulse.{PulseClock}
use freewheeling_plus.Engine.Loop.{LoopSlot, stored, capacity, uses_blocks, is_nil}
use freewheeling_plus.Engine.Loop.Samples.{IsStored}
use freewheeling_plus.Engine.Runtime.{Engine, Recorder, put_loop, send_status, reject}
use freewheeling_plus.Engine.Runtime.Recording.{reach, stop_recording}
use freewheeling_plus.Engine.Runtime.Loops.{
  first_block, new_take, started, align_take, record_into, record_loop,
}
use freewheeling_plus.Engine.Runtime.Room.{IsRoomy, grown-IsRoomy, reach-IsGrown}
use freewheeling_plus.Engine.Runtime.Keep.{Keeps, same-Keeps, other-Keeps, Keeps-trans}
use freewheeling_plus.Engine.Runtime.Valid.{
  IsLoop, IsEngine, paid-IsEngine, put_loop-IsEngine, send_status-IsEngine,
}
use freewheeling_plus.Engine.Runtime.Follow.{timed-IsEngine}
use freewheeling_plus.Engine.Runtime.Stop.{stop_recording-IsStopped}

module _ (f : Float32) (P : BlockPool f.F) where
  open f use {F, of_ℕ}
  open P use {Pool, IsPool, ready, room, add_block, release_blocks}

  -- The loop that `Record` starts, before frames are put into it.
  new_take-IsRoomy :
      (r : Recorder) (c : PulseClock) (s : LoopSlot F)
      → IsStored s
      → IsRoomy (new_take f P r c s)
        × ((new_take f P r c s).position ≡ 0)
        × ((new_take f P r c s).len ≡ 0)
  unfolding new_take capacity stored uses_blocks
  new_take-IsRoomy r c s v = (
    record {
      formed = record { blocks_formed = v.blocks_formed; channels = v.channels };
      offset_fits = omega arith;
      fits = omega arith;
      short = omega arith;
    },
    refl,
    refl,
  )

  -- All loops but the one that is recorded into keep their storage.
  unfoldable pub SparesOthers : ℕ → Engine P → Engine P → Type 0
  SparesOthers index e t = (slot : ℕ) → index ≢ slot → Keeps slot e.loops t.loops

  -- A well-formed engine that starts to record a loop.
  align_take-IsEngine :
      (e : Engine P) (index : ℕ) (s : LoopSlot F)
      → IsEngine e
      → IsLoop s
      → s.position ≡ 0
      → (t : Engine P) × (align_take f P e index s ≡ some t) × IsEngine t × SparesOthers index e t
  unfolding align_take put_loop SparesOthers
  align_take-IsEngine e index s v w at_start = elim (Bool-cases (not e.clock.pulse_sync_active)) [
    | inl t ↦ (e, rw t refl, v, λ k ne. same-Keeps k e.loops e.loops refl)
    | inr t ↦ elim (Bool-cases (leb e.clock.pulse_frames (e.clock.pulse_position * 2))) [
      | inl late ↦
          let r : Recorder = record e.recorder { waiting_start = true; started_late = true } in
          (
            record e { recorder = r },
            rw t (rw late refl),
            timed-IsEngine f P e e.clock r v refl refl,
            λ k ne. same-Keeps k e.loops e.loops refl,
          )
      | inr early ↦
          let n = e.clock.pulse_position in
          let r = reach f P n e.loop_storage s in
          let g =
            reach-IsGrown f P n e.loop_storage s v.pool_valid w.roomy.formed w.roomy.offset_fits in
          let u =
            prefill-IsLoop f P e.history r.1 n v.history_level
              (grown-IsRoomy f P n e.loop_storage s r g w.roomy)
              (ap (λ (x : LoopSlot F). x.position) g.kept ∙ at_start) v.phase_fits in
          (
            put_loop (record e { loop_storage = r.0 }) index u.0,
            rw t (rw early (rw u.1 refl)),
            put_loop-IsEngine (record e { loop_storage = r.0 }) index u.0
                (paid-IsEngine e r.0 v g.pool_valid) u.2,
            λ k ne. other-Keeps k index e.loops u.0 ne,
          )
    ]
  ]

  record IsReady (r : Pool × LoopSlot F × Bool) : Type 0 where
    pool_valid : IsPool r.0
    formed : IsStored r.1
    given : r.2 ≡ true

  -- The blocks of the loop before, given back.
  freed : Pool → LoopSlot F → Pool × List (StereoTransfer F)
  freed p s = if uses_blocks s then release_blocks p s.blocks else (p, s.blocks)

  freed_kept :
      (p : Pool) (s : LoopSlot F)
      → IsPool p
      → All IsBlock s.blocks
      → IsPool (freed p s).0 × All IsBlock (freed p s).1 × (ready (freed p s).0 ≡ ready p)
  unfolding freed
  freed_kept p s v w = elim (Bool-cases (uses_blocks s)) [
    | inl t ↦ rw t (
      P.release_blocks-IsPool p s.blocks v w,
      P.release_blocks-IsBlock p s.blocks w,
      P.ready-release_blocks p s.blocks,
    )
    | inr t ↦ rw t (v, w, refl)
  ]

  first_block-IsReady :
      (p : Pool) (s : LoopSlot F)
      → IsPool p
      → IsStored s
      → 0 < ready p
      → IsReady (first_block f P p s)
  unfolding first_block freed
  first_block-IsReady p s v w h =
      let k = freed_kept p s v w.blocks_formed in
      let q = freed p s in
      elim (Bool-cases (is_nil s.left)) [
        | inl t ↦ rw t (record {
          pool_valid = P.add_block-IsPool q.0 q.1 k.0;
          formed = record {
            blocks_formed = P.add_block-IsBlock q.0 q.1 k.0 k.1;
            channels = w.channels;
          };
          given = P.add_block_ready q.0 q.1 (omega (arith, h, k.2));
        })
        | inr t ↦ rw t (record {
          pool_valid = k.0;
          formed = record { blocks_formed = k.1; channels = w.channels };
          given = refl;
        })
      ]

  started-IsEngine :
      (e : Engine P) (p : Pool) (slot : ℕ)
      → IsEngine e
      → IsPool p
      → slot < length e.loops
      → IsEngine (record e { loop_storage = p; recorder = started e.recorder e.clock slot })
  unfolding started
  started-IsEngine e p slot v w h = record {
    pool_valid = w;
    loops_valid = v.loops_valid;
    recorded = λ i r. subst (λ n. n < length e.loops) (some-injective slot i r) h;
    phase_fits = v.phase_fits;
    history_level = v.history_level;
    history_fits = v.history_fits;
    transfers_valid = v.transfers_valid;
  }

  record_into-IsEngine :
      (e : Engine P) (slot : ℕ) (s : LoopSlot F)
      → IsEngine e
      → slot < length e.loops
      → IsStored s
      → 0 < ready e.loop_storage
      → (t : Engine P) × (record_into f P e slot s ≡ some t) × IsEngine t × SparesOthers slot e t
  unfolding record_into put_loop SparesOthers
  record_into-IsEngine e slot s v inside w h =
      let r = first_block f P e.loop_storage s in
      let g = first_block-IsReady e.loop_storage s v.pool_valid w h in
      let target = new_take f P e.recorder e.clock r.1 in
      let k = new_take-IsRoomy e.recorder e.clock r.1 g.formed in
      let fresh : IsLoop target = record { roomy = k.0; placed = λ p. omega (arith, p, k.2) } in
      let started_engine : Engine P = record e {
        loop_storage = r.0;
        recorder = started e.recorder e.clock slot;
      } in
      let t =
        align_take-IsEngine (put_loop started_engine slot target) slot target
          (put_loop-IsEngine started_engine slot target
            (started-IsEngine e r.0 slot v g.pool_valid inside) fresh)
          fresh k.1 in
      (
        t.0,
        rw g.given t.1,
        t.2,
        λ k ne.
            Keeps-trans k e.loops (set e.loops slot target) t.0.loops
              (other-Keeps k slot e.loops target ne) (t.3 k ne),
      )

  record_empty :
      (e : Engine P) (command : RuntimeCommand F) (slot : ℕ) (t : Engine P)
      → stop_recording f P e true ≡ some t
      → get_elem? t.loops slot ≡ none
      → record_loop f P e command slot ≡ some (reject t command)
  unfolding record_loop
  record_empty e command slot t h n = cc

  record_found :
      (e : Engine P) (command : RuntimeCommand F) (slot : ℕ) (t : Engine P) (s : LoopSlot F)
      → stop_recording f P e true ≡ some t
      → get_elem? t.loops slot ≡ some s
      → record_loop f P e command slot ≡ record_into f P t slot s
  unfolding record_loop
  record_found e command slot t s h n = cc

  -- From a well-formed engine with two blocks ready `Record` leaves a well-formed engine.
  pub record_loop-IsEngine :
      (e : Engine P) (command : RuntimeCommand F) (slot : ℕ)
      → IsEngine e
      → 2 ≤ ready e.loop_storage
      → (t : Engine P) × (record_loop f P e command slot ≡ some t)
        × IsEngine t
        × SparesOthers slot e t
  unfolding reject send_status SparesOthers
  record_loop-IsEngine e command slot v h =
      let a = stop_recording-IsStopped f P e true v in
      elim (Option-cases (get_elem? a.0.loops slot)) [
        | inl n ↦ (
          reject a.0 command,
          record_empty e command slot a.0 a.1 n,
          send_status-IsEngine a.0 _ a.2.valid,
          λ k ne. a.3 k,
        )
        | inr s ↦
            let w = All-get IsLoop a.0.loops slot s.0 a.2.valid.loops_valid s.1 in
            let t =
              record_into-IsEngine a.0 slot s.0 a.2.valid (get_elem?-lt a.0.loops slot s.1)
                w.roomy.formed (omega (arith, h, a.2.cheap)) in
            (
              t.0,
              record_found e command slot a.0 s.0 a.1 s.1 ∙ t.1,
              t.2,
              λ k ne. Keeps-trans k e.loops a.0.loops t.0.loops (a.3 k) (t.3 k ne),
            )
      ]
