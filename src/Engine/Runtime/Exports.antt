-- ===== src/Engine/Runtime/Exports.antt =====
-- src/native_dsp_graph.rs: an export from its request to its end.
use freewheeling_plus.Prelude.{
  ℕ, suc, ◌+◌, ◌*◌, ◌%◌, ◌^◌, ◌≤◌, ◌<◌, ◌≡◌, refl, sym, ap, ◌∙◌, Bool, true, Option, none, some,
  ◌∷◌, length, get_elem?, All-get, arith,
}
use freewheeling_plus.Prelude.Options.{keep_if}
use freewheeling_plus.Engine.Command.{PcmTransferHandle}
use freewheeling_plus.Engine.Blocks.{BlockPool}
use freewheeling_plus.Engine.Transfer.{TransferSlot, slot, callback}
use freewheeling_plus.Engine.Transfer.Slots.{slot-put, slot-some}
use freewheeling_plus.Engine.Loop.{LoopSlot}
use freewheeling_plus.Engine.Runtime.{Engine, ExportJob, loop_exported}
use freewheeling_plus.Engine.Runtime.Pcm.{
  export_copy_frames_per_callback, is_queued, queued_slot, can_export, start_export,
  request_loop_export, advance_exports,
}
use freewheeling_plus.Engine.Runtime.Copy.{HasFrames}
use freewheeling_plus.Engine.Runtime.Valid.{IsLoop, IsTransfer, IsEngine}
use freewheeling_plus.Engine.Runtime.Moves.{export_started}
use freewheeling_plus.Engine.Runtime.Export.{IsExporting, IsExported, advance_exports-IsExported}

kept_if :
    {A : Type 0} (p : A → Bool) (o : Option A) (x : A)
    → o ≡ some x
    → p x ≡ true
    → keep_if p o ≡ some x
kept_if p o x h e = rw h (rw e refl)

module _ {F : Type 0} {P : BlockPool F} where
  start_export-IsExporting :
      (e : Engine P) (target : ℕ) (handle : PcmTransferHandle) (s : LoopSlot F) (t : TransferSlot F)
      → IsEngine e
      → get_elem? e.loops target ≡ some s
      → slot e.transfers handle ≡ some t
      → s.len ≤ length t.pcm.left
      → s.len < 2 ^ 32
      → (job : ExportJob F) × IsExporting (start_export e target handle s t) job s
        × (job.slot ≡ target)
        × (job.handle ≡ handle)
        × (job.cursor ≡ 0)
        × (job.metadata.frames ≡ s.len)
        × ((start_export e target handle s t).loops ≡ e.loops)
        × ((start_export e target handle s t).sent ≡ e.sent)
  unfolding start_export HasFrames
  start_export-IsExporting e target handle s t v at found room small =
      let exact : s.len % 2 ^ 32 ≡ s.len = omega (arith, small) in
      let w = All-get IsLoop e.loops target s v.loops_valid at in
      let k =
        All-get IsTransfer e.transfers.slots handle.index t v.transfers_valid
          (slot-some e.transfers handle t found).0 in
      let u : TransferSlot F = record t { state = callback; pcm = record t.pcm { len = s.len } } in
      (
        _,
        record {
          running = refl;
          at = at;
          formed = w.roomy.formed;
          fits = omega (arith, w.roomy.fits, exact);
          transfer = u;
          found = slot-put e.transfers handle t u found refl;
          level = k.level;
          room = omega (arith, room, exact);
          full = sym exact;
          before = omega arith;
          copied = λ i h. absurd (omega (arith, h));
        },
        refl,
        refl,
        refl,
        exact,
        refl,
        refl,
      )

  -- In a well-formed engine without an export, a request for a loop that has frames and is neither
  -- recorded nor overdubbed, with a queued transfer that is long enough, leads to a complete export
  -- in one callback for each 4096 frames, if no command runs between those callbacks and the loop has
  -- fewer than 2^32 frames: no callback panics, the transfer is handed over with all frames of the
  -- loop and is reported, and the loops are left as they were. That the transfer is long enough is a
  -- condition: the code does not compare the two lengths.
  pub request_loop_export-IsExported :
      (n : ℕ) (e : Engine P) (target : ℕ) (handle : PcmTransferHandle) (s : LoopSlot F)
      (t : TransferSlot F)
      → IsEngine e
      → e.export_job ≡ none
      → get_elem? e.loops target ≡ some s
      → can_export s ≡ true
      → slot e.transfers handle ≡ some t
      → is_queued t.state ≡ true
      → s.len ≤ length t.pcm.left
      → s.len < 2 ^ 32
      → s.len ≤ (n + 1) * export_copy_frames_per_callback
      → (job : ExportJob F) × (u : Engine P) × (advance_exports
            (suc n)
            (request_loop_export e target handle)
          ≡ some u)
        × (job.slot ≡ target)
        × (job.handle ≡ handle)
        × (job.metadata.frames ≡ s.len)
        × IsExported e job s u
  unfolding queued_slot
  request_loop_export-IsExported n e target handle s t v idle at can found queued room small
        enough =
      let m = start_export e target handle s t in
      let x = start_export-IsExporting e target handle s t v at found room small in
      let starts : request_loop_export e target handle ≡ m =
        export_started e target handle s t idle
          (kept_if can_export (get_elem? e.loops target) s at can)
          (kept_if (λ (y : TransferSlot F). is_queued y.state) (slot e.transfers handle) t found
            queued) in
      let u = advance_exports-IsExported n m x.0 s x.1 (omega (arith, enough, x.4, x.5)) in
      (
        x.0,
        u.0,
        ap (λ y. advance_exports (suc n) y) starts ∙ u.1,
        x.2,
        x.3,
        x.5,
        record {
          idle = u.2.idle;
          transfer = u.2.transfer;
          found = u.2.found;
          handed = u.2.handed;
          full = u.2.full;
          copied = u.2.copied;
          same_loops = u.2.same_loops ∙ x.6;
          sent = u.2.sent ∙ ap (λ sts. loop_exported x.0.slot x.0.handle x.0.metadata ∷ sts) x.7;
        },
      )
