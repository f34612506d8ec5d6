-- ===== src/Engine/Runtime/Moves.antt =====
-- src/native_dsp_graph.rs: the transfers, and `RequestLoopExport`, in a well-formed engine.
use freewheeling_plus.Prelude.{
  ℕ, ◌≡◌, refl, sym, subst, Bool, true, false, Option, none, some, get_elem?, All, All-get, All-set,
  Option-cases, inl, inr,
}
use freewheeling_plus.Prelude.Options.{keep_if, keep_if-some}
use freewheeling_plus.Engine.Command.{PcmTransferHandle}
use freewheeling_plus.Engine.Blocks.{BlockPool}
use freewheeling_plus.Engine.Transfer.{
  TransferSlot, TransferPool, TransferState, slot, put, exported,
}
use freewheeling_plus.Engine.Transfer.Slots.{slot-some}
use freewheeling_plus.Engine.Loop.{LoopSlot}
use freewheeling_plus.Engine.Runtime.{Engine, ExportJob}
use freewheeling_plus.Engine.Runtime.Pcm.{
  is_queued, store_state, queued_slot, fail_transfer, give_back, start_export, can_export,
  request_loop_export,
}
use freewheeling_plus.Engine.Runtime.Valid.{IsTransfer, IsEngine, send_status-IsEngine}

module _ {F : Type 0} where
  -- A slot that does not wait for an import.
  unqueued :
      (t : TransferSlot F) (s : TransferState)
      → is_queued s ≡ false
      → IsTransfer t
      → IsTransfer (record t { state = s })
  unqueued t s q v = record { level = v.level; fits = λ h. absurd cc; short = λ h. absurd cc }

  slot-IsTransfer :
      (pool : TransferPool F) (handle : PcmTransferHandle) (t : TransferSlot F)
      → All IsTransfer pool.slots
      → slot pool handle ≡ some t
      → IsTransfer t
  slot-IsTransfer pool handle t v h =
      All-get IsTransfer pool.slots handle.index t v (slot-some pool handle t h).0

  pub put-All :
      (pool : TransferPool F) (handle : PcmTransferHandle) (t : TransferSlot F)
      → All IsTransfer pool.slots
      → IsTransfer t
      → All IsTransfer (put pool handle t).slots
  unfolding put
  put-All pool handle t v w = All-set IsTransfer pool.slots handle.index t v w

  store_state-All :
      (pool : TransferPool F) (handle : PcmTransferHandle)
      → All IsTransfer pool.slots
      → All IsTransfer (store_state pool handle exported).slots
  unfolding store_state is_queued
  store_state-All pool handle v = elim (Option-cases (slot pool handle)) [
    | inl n ↦ rw (n, store_state) v
    | inr t ↦
        rw (t.1, store_state)
          (put-All pool handle (record t.0 { state = exported }) v
            (unqueued t.0 exported refl (slot-IsTransfer pool handle t.0 v t.1)))
  ]

  pub queued_slot-IsTransfer :
      (pool : TransferPool F) (handle : PcmTransferHandle) (t : TransferSlot F)
      → All IsTransfer pool.slots
      → queued_slot pool handle ≡ some t
      → IsTransfer t × (is_queued t.state ≡ true)
  unfolding queued_slot
  queued_slot-IsTransfer pool handle t v h =
      let k = keep_if-some (λ (x : TransferSlot F). is_queued x.state) (slot pool handle) t h in
      (slot-IsTransfer pool handle t v k.0, k.1)

  module _ {P : BlockPool F} where
    pub moved-IsEngine :
        (e : Engine P) (pool : TransferPool F) (job : Option (ExportJob F))
        → IsEngine e
        → All IsTransfer pool.slots
        → IsEngine (record e { transfers = pool; export_job = job })
    moved-IsEngine e pool job v w = record {
      pool_valid = v.pool_valid;
      loops_valid = v.loops_valid;
      recorded = v.recorded;
      phase_fits = v.phase_fits;
      history_level = v.history_level;
      history_fits = v.history_fits;
      transfers_valid = w;
    }

    pub fail_transfer-IsEngine :
        (e : Engine P) (target : ℕ) (handle : PcmTransferHandle) (busy : Bool)
        → IsEngine e
        → IsEngine (fail_transfer e target handle busy)
    unfolding fail_transfer
    fail_transfer-IsEngine e target handle busy v = send_status-IsEngine e _ v

    pub give_back-IsEngine :
        (e : Engine P) (target : ℕ) (handle : PcmTransferHandle) (busy : Bool)
        → IsEngine e
        → IsEngine (give_back e target handle busy)
    unfolding give_back
    give_back-IsEngine e target handle busy v = fail_transfer-IsEngine _ target handle busy (
        moved-IsEngine e (store_state e.transfers handle exported) e.export_job v
          (store_state-All e.transfers handle v.transfers_valid))

    start_export-IsEngine :
        (e : Engine P) (target : ℕ) (handle : PcmTransferHandle) (s : LoopSlot F)
        (t : TransferSlot F)
        → IsEngine e
        → IsTransfer t
        → IsEngine (start_export e target handle s t)
    unfolding start_export is_queued
    start_export-IsEngine e target handle s t v w = moved-IsEngine e _ _ v (
        put-All e.transfers handle _ v.transfers_valid
          (record { level = w.level; fits = λ h. absurd cc; short = λ h. absurd cc }))

    pub export_busy :
        (e : Engine P) (target : ℕ) (handle : PcmTransferHandle) (job : ExportJob F)
        → e.export_job ≡ some job
        → request_loop_export e target handle ≡ give_back e target handle true
    unfolding request_loop_export
    export_busy e target handle job h = cc

    pub export_refused :
        (e : Engine P) (target : ℕ) (handle : PcmTransferHandle)
        → e.export_job ≡ none
        → keep_if can_export (get_elem? e.loops target) ≡ none
        → request_loop_export e target handle ≡ give_back e target handle false
    unfolding request_loop_export
    export_refused e target handle idle h = cc

    pub export_stale :
        (e : Engine P) (target : ℕ) (handle : PcmTransferHandle) (s : LoopSlot F)
        → e.export_job ≡ none
        → keep_if can_export (get_elem? e.loops target) ≡ some s
        → queued_slot e.transfers handle ≡ none
        → request_loop_export e target handle ≡ fail_transfer e target handle false
    unfolding request_loop_export
    export_stale e target handle s idle h n = cc

    pub export_started :
        (e : Engine P) (target : ℕ) (handle : PcmTransferHandle) (s : LoopSlot F)
        (t : TransferSlot F)
        → e.export_job ≡ none
        → keep_if can_export (get_elem? e.loops target) ≡ some s
        → queued_slot e.transfers handle ≡ some t
        → request_loop_export e target handle ≡ start_export e target handle s t
    unfolding request_loop_export
    export_started e target handle s t idle h q = cc

    pub request_loop_export-IsEngine :
        (e : Engine P) (target : ℕ) (handle : PcmTransferHandle)
        → IsEngine e
        → IsEngine (request_loop_export e target handle)
    request_loop_export-IsEngine e target handle v = elim (Option-cases e.export_job) [
      | inr job ↦
          subst IsEngine (sym (export_busy e target handle job.0 job.1))
            (give_back-IsEngine e target handle true v)
      | inl idle ↦ elim (Option-cases (keep_if can_export (get_elem? e.loops target))) [
        | inl n ↦
            subst IsEngine (sym (export_refused e target handle idle n))
              (give_back-IsEngine e target handle false v)
        | inr s ↦ elim (Option-cases (queued_slot e.transfers handle)) [
          | inl n ↦
              subst IsEngine (sym (export_stale e target handle s.0 idle s.1 n))
                (fail_transfer-IsEngine e target handle false v)
          | inr t ↦ subst IsEngine (sym (export_started e target handle s.0 t.0 idle s.1 t.1)) (
              start_export-IsEngine e target handle s.0 t.0 v
                (queued_slot-IsTransfer e.transfers handle t.0 v.transfers_valid t.1).0)
        ]
      ]
    ]
