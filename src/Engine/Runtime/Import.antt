-- ===== src/Engine/Runtime/Import.antt =====
-- src/native_dsp_graph.rs: `ImportLoop` and `Shutdown` in a well-formed engine.
use native.Mathlib.Nat
use freewheeling_plus.Prelude.{
  ℕ, ◌≤◌, ◌≡◌, refl, sym, subst, true, false, none, some, [], length, get_elem?, All-get, arith,
  Option-cases, inl, inr,
}
use freewheeling_plus.Prelude.Floats.{Float32}
use freewheeling_plus.Engine.Command.{PcmTransferHandle, LoopMode}
use freewheeling_plus.Engine.Blocks.{BlockPool}
use freewheeling_plus.Engine.Transfer.{TransferSlot}
use freewheeling_plus.Engine.Loop.{LoopSlot, stored, capacity, uses_blocks, is_nil}
use freewheeling_plus.Engine.Mixer.{call, shutdown_synth}
use freewheeling_plus.Engine.Runtime.{
  Engine, ExportJob, put_loop, on_mixer, send_status, shutdown_complete,
}
use freewheeling_plus.Engine.Runtime.Pcm.{
  is_queued, queued_slot, fail_transfer, give_back, imported_slot, import_into, import_loop,
  end_export, shutdown,
}
use freewheeling_plus.Engine.Runtime.Valid.{
  IsLoop, IsTransfer, IsEngine, put_loop-IsEngine, on_mixer-IsEngine, send_status-IsEngine,
  paid-IsEngine,
}
use freewheeling_plus.Engine.Runtime.Stop.{stop_recording-IsStopped}
use freewheeling_plus.Engine.Runtime.Moves.{
  put-All, queued_slot-IsTransfer, moved-IsEngine, fail_transfer-IsEngine, give_back-IsEngine,
}

module _ (f : Float32) (P : BlockPool f.F) where
  open f use {F}

  -- An imported loop lies in the vectors that came with it, once its blocks are given back.
  imported-IsLoop :
      (s : LoopSlot F) (t : TransferSlot F) (position : ℕ) (mode : LoopMode) (gain : F)
      → IsTransfer t
      → is_queued t.state ≡ true
      → IsLoop (imported_slot f P [] t.pcm position mode gain s)
  unfolding imported_slot capacity stored uses_blocks is_nil
  imported-IsLoop s t position mode gain w q = record {
    roomy = record {
      formed = record { blocks_formed = tt; channels = w.level };
      offset_fits = omega arith;
      fits = omega (arith, w.fits q);
      short = w.short q;
    };
    placed = λ h. ground (arith, Nat.mod-lt position {m = t.pcm.len} h);
  }

  import_into-IsEngine :
      (e : Engine P) (target : ℕ) (handle : PcmTransferHandle) (position : ℕ) (mode : LoopMode)
      (gain : F) (s : LoopSlot F) (t : TransferSlot F)
      → IsEngine e
      → IsLoop s
      → IsTransfer t
      → is_queued t.state ≡ true
      → length s.blocks ≤ P.room e.loop_storage
      → IsEngine (import_into f P e target handle position mode gain s t)
  unfolding import_into put_loop is_queued
  import_into-IsEngine e target handle position mode gain s t v w k q room =
      let released = P.release_blocks e.loop_storage s.blocks in
      let empty = P.release_blocks_room e.loop_storage s.blocks room in
      let imported = imported_slot f P released.1 t.pcm position mode gain s in
      let loop : IsLoop imported =
        subst (λ bs. IsLoop (imported_slot f P bs t.pcm position mode gain s)) (sym empty)
          (imported-IsLoop s t position mode gain k q) in
      let paid = paid-IsEngine e released.0 v (
        P.release_blocks-IsPool e.loop_storage s.blocks v.pool_valid
          w.roomy.formed.blocks_formed) in
      send_status-IsEngine _ _ (
        moved-IsEngine (put_loop (record e { loop_storage = released.0 }) target imported) _
          e.export_job
          (put_loop-IsEngine (record e { loop_storage = released.0 }) target imported paid loop)
          (put-All e.transfers handle _ v.transfers_valid (record {
            level = w.roomy.formed.channels;
            fits = λ h. absurd cc;
            short = λ h. absurd cc;
          })))

  pub import_missing :
      (e : Engine P) (target : ℕ) (handle : PcmTransferHandle) (position : ℕ) (mode : LoopMode)
      (gain : F)
      → get_elem? e.loops target ≡ none
      → import_loop f P e target handle position mode gain ≡ give_back e target handle false
  unfolding import_loop
  import_missing e target handle position mode gain h = cc

  pub import_stale :
      (e : Engine P) (target : ℕ) (handle : PcmTransferHandle) (position : ℕ) (mode : LoopMode)
      (gain : F) (s : LoopSlot F)
      → get_elem? e.loops target ≡ some s
      → queued_slot e.transfers handle ≡ none
      → import_loop f P e target handle position mode gain ≡ fail_transfer e target handle false
  unfolding import_loop
  import_stale e target handle position mode gain s h n = cc

  pub import_found :
      (e : Engine P) (target : ℕ) (handle : PcmTransferHandle) (position : ℕ) (mode : LoopMode)
      (gain : F) (s : LoopSlot F) (t : TransferSlot F)
      → get_elem? e.loops target ≡ some s
      → queued_slot e.transfers handle ≡ some t
      → import_loop f P e target handle position mode gain
        ≡ import_into f P e target handle position mode gain s t
  unfolding import_loop
  import_found e target handle position mode gain s t h q = cc

  -- The blocks of the loop can be given back.
  abbrev pub HasRoom : Engine P → ℕ → Type 0
  HasRoom e target =
      (s : LoopSlot F) → get_elem? e.loops target ≡ some s → length s.blocks ≤ P.room e.loop_storage

  pub import_loop-IsEngine :
      (e : Engine P) (target : ℕ) (handle : PcmTransferHandle) (position : ℕ) (mode : LoopMode)
      (gain : F)
      → IsEngine e
      → HasRoom e target
      → IsEngine (import_loop f P e target handle position mode gain)
  import_loop-IsEngine e target handle position mode gain v room =
      elim (Option-cases (get_elem? e.loops target)) [
        | inl n ↦
            subst IsEngine (sym (import_missing e target handle position mode gain n))
              (give_back-IsEngine e target handle false v)
        | inr s ↦ elim (Option-cases (queued_slot e.transfers handle)) [
          | inl n ↦
              subst IsEngine (sym (import_stale e target handle position mode gain s.0 s.1 n))
                (fail_transfer-IsEngine e target handle false v)
          | inr t ↦
              let k = queued_slot-IsTransfer e.transfers handle t.0 v.transfers_valid t.1 in
              subst IsEngine (sym (import_found e target handle position mode gain s.0 t.0 s.1 t.1))
                (import_into-IsEngine e target handle position mode gain s.0 t.0 v
                  (All-get IsLoop e.loops target s.0 v.loops_valid s.1) k.0 k.1 (room s.0 s.1))
        ]
      ]

  pub end_idle : (e : Engine P) → e.export_job ≡ none → end_export f P e ≡ e
  unfolding end_export
  end_idle e h = cc

  pub end_busy :
      (e : Engine P) (job : ExportJob F)
      → e.export_job ≡ some job
      → end_export f P e ≡ give_back (record e { export_job = none }) job.slot job.handle true
  unfolding end_export
  end_busy e job h = cc

  end_export-IsEngine : (e : Engine P) → IsEngine e → IsEngine (end_export f P e)
  unfolding end_export
  end_export-IsEngine e v = elim (Option-cases e.export_job) [
    | inl n ↦ subst IsEngine (sym (end_idle e n)) v
    | inr job ↦ subst IsEngine (sym (end_busy e job.0 job.1)) (
        give_back-IsEngine (record e { export_job = none }) job.0.slot job.0.handle true
          (moved-IsEngine e e.transfers none v v.transfers_valid))
  ]

  pub shut-IsEngine : (e : Engine P) → IsEngine e → IsEngine (record e { running = false })
  shut-IsEngine e v = record {
    pool_valid = v.pool_valid;
    loops_valid = v.loops_valid;
    recorded = v.recorded;
    phase_fits = v.phase_fits;
    history_level = v.history_level;
    history_fits = v.history_fits;
    transfers_valid = v.transfers_valid;
  }

  pub shutdown-IsEngine :
      (e : Engine P) → IsEngine e → (t : Engine P) × (shutdown f P e ≡ some t) × IsEngine t
  unfolding shutdown
  shutdown-IsEngine e v =
      let a =
        stop_recording-IsStopped f P (record e { running = false }) false (shut-IsEngine e v) in
      (
        send_status (on_mixer (end_export f P a.0) (λ m. call f m shutdown_synth))
            shutdown_complete,
        rw a.1 refl,
        send_status-IsEngine _ _ (on_mixer-IsEngine _ _ (end_export-IsEngine a.0 a.2.valid)),
      )
