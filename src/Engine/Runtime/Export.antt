-- ===== src/Engine/Runtime/Export.antt =====
-- src/native_dsp_graph.rs: an export runs to its end and copies the loop.
use freewheeling_plus.Prelude.{
  ℕ, zero, suc, ◌+◌, ◌-◌, ◌*◌, ◌≤◌, ◌≡◌, ◌≢◌, refl, sym, ap, ◌∙◌, subst, min, true, false, none,
  some, ◌∷◌, ◌==◌, length, get_elem?, arith, ◌⊎◌, inl, inr, ℕ_discrete,
}
use freewheeling_plus.Engine.Blocks.{BlockPool}
use freewheeling_plus.Engine.Transfer.{StereoTransfer, TransferSlot, slot, exported}
use freewheeling_plus.Engine.Transfer.Slots.{slot-put}
use freewheeling_plus.Engine.Loop.{LoopSlot, capacity}
use freewheeling_plus.Engine.Loop.Samples.{IsStored}
use freewheeling_plus.Engine.Runtime.{Engine, ExportJob, send_status, loop_exported}
use freewheeling_plus.Engine.Runtime.Copy.{HasFrames, IsCopied, copy_range-IsCopied}
use freewheeling_plus.Engine.Runtime.Pcm.{
  export_copy_frames_per_callback, copy_range, exported_to, advance_export, advance_exports,
}

part_end : {F : Type 0} → ExportJob F → ℕ
part_end job = min (job.cursor + export_copy_frames_per_callback) job.metadata.frames

next_job : {F : Type 0} → ExportJob F → ExportJob F
next_job job = record job { cursor = part_end job }

part_end-le : {F : Type 0} (job : ExportJob F) → part_end job ≤ job.metadata.frames
unfolding part_end
part_end-le job = omega arith

module _ {F : Type 0} {P : BlockPool F} where
  -- A running export of the loop `s`, of which the frames before the cursor are copied.
  pub record IsExporting (e : Engine P) (job : ExportJob F) (s : LoopSlot F) : Type 0 where
    pub running : e.export_job ≡ some job
    pub at : get_elem? e.loops job.slot ≡ some s
    pub formed : IsStored s
    pub fits : job.metadata.frames ≤ capacity s
    pub transfer : TransferSlot F
    pub found : slot e.transfers job.handle ≡ some transfer
    pub level : length transfer.pcm.left ≡ length transfer.pcm.right
    pub room : job.metadata.frames ≤ length transfer.pcm.left
    pub full : transfer.pcm.len ≡ job.metadata.frames
    pub before : job.cursor ≤ job.metadata.frames
    pub copied : HasFrames s job.cursor transfer.pcm

  -- The export of `e` came to its end: the transfer has the frames of the loop.
  pub record IsExported (e : Engine P) (job : ExportJob F) (s : LoopSlot F) (t : Engine P)
      : Type 0 where
    pub idle : t.export_job ≡ none
    pub transfer : TransferSlot F
    pub found : slot t.transfers job.handle ≡ some transfer
    pub handed : transfer.state ≡ exported
    pub full : transfer.pcm.len ≡ job.metadata.frames
    pub copied : HasFrames s job.metadata.frames transfer.pcm
    pub same_loops : t.loops ≡ e.loops
    pub sent : t.sent ≡ loop_exported job.slot job.handle job.metadata ∷ e.sent

  advance_running :
      (e : Engine P) (job : ExportJob F) (s : LoopSlot F) (t : TransferSlot F)
      (q : StereoTransfer F)
      → e.export_job ≡ some job
      → get_elem? e.loops job.slot ≡ some s
      → slot e.transfers job.handle ≡ some t
      → copy_range (part_end job - job.cursor) job.cursor s t.pcm ≡ some q
      → advance_export e ≡ some (exported_to e job (part_end job) t q)
  unfolding advance_export part_end
  advance_running e job s t q r at found c = cc

  -- One callback: a part is copied.
  advance_part :
      (e : Engine P) (job : ExportJob F) (s : LoopSlot F) (x : IsExporting e job s)
      → (q : StereoTransfer F) × (advance_export e
          ≡ some (exported_to e job (part_end job) x.transfer q))
        × IsCopied s (part_end job) x.transfer.pcm q
  unfolding part_end
  advance_part e job s x =
      let total : job.cursor + (part_end job - job.cursor) ≡ part_end job =
        omega (arith, x.before) in
      let c =
        copy_range-IsCopied (part_end job - job.cursor) job.cursor s x.transfer.pcm x.formed
          x.copied (omega (arith, x.fits, x.before)) (omega (arith, x.room, x.before)) x.level in
      (
        c.0,
        advance_running e job s x.transfer c.0 x.running x.at x.found c.1,
        subst (λ n. IsCopied s n x.transfer.pcm c.0) total c.2,
      )

  -- The callback that copies the last part hands the transfer over.
  last_part :
      (e : Engine P) (job : ExportJob F) (s : LoopSlot F) (x : IsExporting e job s)
      (q : StereoTransfer F)
      → part_end job ≡ job.metadata.frames
      → IsCopied s (part_end job) x.transfer.pcm q
      → IsExported e job s (exported_to e job (part_end job) x.transfer q)
  unfolding exported_to send_status
  last_part e job s x q ends c =
      let t : TransferSlot F = record x.transfer { state = exported; pcm = q } in
      let now : (part_end job == job.metadata.frames) ≡ true = ground (arith, ends) in
      rw now (record {
        idle = refl;
        transfer = t;
        found = slot-put e.transfers job.handle x.transfer t x.found refl;
        handed = refl;
        full = c.same_len ∙ x.full;
        copied = subst (λ n. HasFrames s n q) ends c.frames;
        same_loops = refl;
        sent = refl;
      })

  -- Before that the export goes on at the new cursor.
  middle_part :
      (e : Engine P) (job : ExportJob F) (s : LoopSlot F) (x : IsExporting e job s)
      (q : StereoTransfer F)
      → part_end job ≢ job.metadata.frames
      → IsCopied s (part_end job) x.transfer.pcm q
      → (IsExporting (exported_to e job (part_end job) x.transfer q) (next_job job) s)
        × ((exported_to e job (part_end job) x.transfer q).loops ≡ e.loops)
        × ((exported_to e job (part_end job) x.transfer q).sent ≡ e.sent)
  unfolding exported_to next_job
  middle_part e job s x q differs c =
      let t : TransferSlot F = record x.transfer { pcm = q } in
      let later : (part_end job == job.metadata.frames) ≡ false = ground (arith, differs) in
      rw later (
        record {
          running = refl;
          at = x.at;
          formed = x.formed;
          fits = x.fits;
          transfer = t;
          found = slot-put e.transfers job.handle x.transfer t x.found refl;
          level = c.same_left ∙ (x.level ∙ sym c.same_right);
          room = omega (arith, x.room, c.same_left);
          full = c.same_len ∙ x.full;
          before = part_end-le job;
          copied = c.frames;
        },
        refl,
        refl,
      )

  advance_done : (n : ℕ) (e : Engine P) → e.export_job ≡ none → advance_exports n e ≡ some e
  unfolding advance_exports advance_export
  advance_done zero e h = refl
  advance_done (suc n) e h =
      let stays : advance_export e ≡ some e = cc in rw (stays, advance_exports) (advance_done n e h)

  then-IsExported :
      (e m t : Engine P) (job : ExportJob F) (s : LoopSlot F)
      → m.loops ≡ e.loops
      → m.sent ≡ e.sent
      → IsExported m (next_job job) s t
      → IsExported e job s t
  unfolding next_job
  then-IsExported e m t job s loops sent x = record {
    idle = x.idle;
    transfer = x.transfer;
    found = x.found;
    handed = x.handed;
    full = x.full;
    copied = x.copied;
    same_loops = x.same_loops ∙ loops;
    sent = x.sent ∙ ap (λ sts. loop_exported job.slot job.handle job.metadata ∷ sts) sent;
  }

  -- What one callback does: it ends the export, or takes it to the next part.
  Advanced : Engine P → ExportJob F → LoopSlot F → Engine P → Type 0
  Advanced e job s m =
      IsExported e job s m
      ⊎ ((part_end job ≢ job.metadata.frames)
          × IsExporting m (next_job job) s
          × (m.loops ≡ e.loops)
          × (m.sent ≡ e.sent))

  advance_export-Advanced :
      (e : Engine P) (job : ExportJob F) (s : LoopSlot F)
      → IsExporting e job s
      → (m : Engine P) × (advance_export e ≡ some m) × Advanced e job s m
  unfolding Advanced
  advance_export-Advanced e job s x =
      let a = advance_part e job s x in
      (
        exported_to e job (part_end job) x.transfer a.0,
        a.1,
        elim (ℕ_discrete (part_end job) job.metadata.frames) [
          | yes ends ↦ inl (last_part e job s x a.0 ends a.2)
          | no differs ↦
              let k = middle_part e job s x a.0 differs a.2 in inr (differs, k.0, k.1, k.2)
        ],
      )

  -- An export that has `n + 1` callbacks for its remaining frames, 4096 in each, ends: no callback
  -- panics, and in the end the transfer is handed over with all frames of the loop.
  pub advance_exports-IsExported :
      (n : ℕ) (e : Engine P) (job : ExportJob F) (s : LoopSlot F)
      → IsExporting e job s
      → job.metadata.frames ≤ job.cursor + (n + 1) * export_copy_frames_per_callback
      → (t : Engine P) × (advance_exports (suc n) e ≡ some t) × IsExported e job s t
  unfolding advance_exports part_end next_job Advanced
  advance_exports-IsExported zero e job s x h =
      let a = advance_export-Advanced e job s x in
      elim a.2 [
        | inl done ↦ (a.0, rw a.1 refl, done)
        | inr more ↦ absurd (more.0 (omega (arith, h)))
      ]
  advance_exports-IsExported (suc n) e job s x h =
      let a = advance_export-Advanced e job s x in
      elim a.2 [
        | inl done ↦ (a.0, rw a.1 (advance_done (suc n) a.0 done.idle), done)
        | inr more ↦
            let rest =
              advance_exports-IsExported n a.0 (next_job job) s more.1 (omega (arith, h, more.0)) in
            (rest.0, rw a.1 rest.1, then-IsExported e a.0 rest.0 job s more.2 more.3 rest.2)
      ]
