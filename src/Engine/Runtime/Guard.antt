-- ===== src/Engine/Runtime/Guard.antt =====
-- src/native_dsp_graph.rs: while a loop is exported, `apply_command` keeps the commands away that
-- would take its storage from it.
use mathlib.Core.Option.{some-injective}
use freewheeling_plus.Prelude.{
  ℕ, ◌≤◌, ◌≡◌, ◌≢◌, refl, sym, ap, ◌∙◌, subst, true, false, not, ◌||◌, some, ◌==◌, set, get_elem?,
  Bool-cases, Option-cases, inl, inr,
}
use freewheeling_plus.Prelude.Floats.{Float32}
use freewheeling_plus.Engine.Command.{RuntimeCommand, PcmTransferHandle, LoopMode}
use freewheeling_plus.Engine.Blocks.{BlockPool}
use freewheeling_plus.Engine.Mixer.{call, shutdown_synth}
use freewheeling_plus.Engine.Runtime.{
  Engine, ExportJob, put_loop, on_mixer, send_status, reject, shutdown_complete,
}
use freewheeling_plus.Engine.Runtime.Recording.{request_stop_recording}
use freewheeling_plus.Engine.Runtime.Loops.{
  filled, swap_loops, move_loop, erase, select_pulse, record_loop,
}
use freewheeling_plus.Engine.Runtime.Pcm.{
  queued_slot, give_back, fail_transfer, request_loop_export, import_into, import_loop, end_export,
  shutdown,
}
use freewheeling_plus.Engine.Runtime.Valid.{IsEngine}
use freewheeling_plus.Engine.Runtime.Keep.{
  is_busy, Keeps, Keeps-trans, same-Keeps, other-Keeps, set-Keeps,
}
use freewheeling_plus.Engine.Runtime.Stop.{stop_recording-IsStopped}
use freewheeling_plus.Engine.Runtime.Request.{request_stop_recording-Follows}
use freewheeling_plus.Engine.Runtime.Start.{SparesOthers, record_loop-IsEngine}
use freewheeling_plus.Engine.Runtime.Clear.{
  erase_found, erase_missing, select_active, select_missing, select_found,
}
use freewheeling_plus.Engine.Runtime.Moves.{export_busy}
use freewheeling_plus.Engine.Runtime.Import.{
  import_missing, import_stale, import_found, shut-IsEngine, end_idle, end_busy,
}
use freewheeling_plus.Engine.Runtime.Spare.{Spares, same-Spares, filled_at}

module _ (f : Float32) (P : BlockPool f.F) (k : ℕ) where
  open f use {F}

  pub move_loop-Spares :
      (e : Engine P) (command : RuntimeCommand F) (source target : ℕ)
      → source ≢ k
      → target ≢ k
      → Spares k e (move_loop f P e command source target)
  unfolding move_loop Spares swap_loops reject send_status
  move_loop-Spares e command source target a b =
      let no = same-Keeps k e.loops e.loops refl in
      elim (Option-cases (get_elem? e.loops source)) [
        | inl n ↦ rw (n, move_loop) no
        | inr s ↦ elim (Option-cases (get_elem? e.loops target)) [
          | inl n ↦ rw (s.1, move_loop) (rw n no)
          | inr t ↦ elim (Bool-cases (source == target || s.0.len == 0 || not (t.0.len == 0))) [
            | inl y ↦ rw (s.1, move_loop) (rw t.1 (rw y no))
            | inr y ↦
                rw (s.1, move_loop)
                  (rw t.1 (
                    rw y (
                      Keeps-trans k e.loops (set e.loops source t.0)
                        (set (set e.loops source t.0) target s.0)
                        (other-Keeps k source e.loops t.0 a)
                        (other-Keeps k target (set e.loops source t.0) s.0 b))))
          ]
        ]
      ]

  pub erase-Spares :
      (e : Engine P) (command : RuntimeCommand F) (slot : ℕ)
      → slot ≢ k
      → Spares k e (erase f P e command slot)
  unfolding Spares put_loop reject send_status
  erase-Spares e command slot ne = elim (Option-cases (get_elem? e.loops slot)) [
    | inl n ↦
        subst (λ (x : Engine P). Keeps k e.loops x.loops) (sym (erase_missing f P e command slot n))
          (same-Keeps k e.loops e.loops refl)
    | inr s ↦
        subst (λ (x : Engine P). Keeps k e.loops x.loops)
          (sym (erase_found f P e command slot s.0 s.1)) (other-Keeps k slot e.loops _ ne)
  ]

  pub select_pulse-Spares :
      (e : Engine P) (command : RuntimeCommand F) (slot : ℕ)
      → Spares k e (select_pulse f P e command slot)
  unfolding Spares put_loop reject send_status is_busy
  select_pulse-Spares e command slot =
      let no = same-Keeps k e.loops e.loops refl in
      elim (Bool-cases e.clock.pulse_sync_active) [
        | inl on ↦
            subst (λ (x : Engine P). Keeps k e.loops x.loops)
              (sym (select_active f P e command slot on)) no
        | inr off ↦ elim (Option-cases (filled e.loops slot)) [
          | inl n ↦
              subst (λ (x : Engine P). Keeps k e.loops x.loops)
                (sym (select_missing f P e command slot off n)) no
          | inr s ↦
              subst (λ (x : Engine P). Keeps k e.loops x.loops)
                (sym (select_found f P e command slot s.0 off s.1))
                (set-Keeps k slot e.loops s.0 _ (filled_at e slot s.0 s.1) (λ i. record {
                  left = refl;
                  right = refl;
                  blocks = refl;
                  data_offset = refl;
                  idle = i;
                }))
        ]
      ]

  pub import_loop-Spares :
      (e : Engine P) (target : ℕ) (handle : PcmTransferHandle) (position : ℕ) (mode : LoopMode)
      (gain : F)
      → target ≢ k
      → Spares k e (import_loop f P e target handle position mode gain)
  unfolding Spares give_back fail_transfer import_into put_loop send_status
  import_loop-Spares e target handle position mode gain ne =
      let no = same-Keeps k e.loops e.loops refl in
      elim (Option-cases (get_elem? e.loops target)) [
        | inl n ↦
            subst (λ (x : Engine P). Keeps k e.loops x.loops)
              (sym (import_missing f P e target handle position mode gain n)) no
        | inr s ↦ elim (Option-cases (queued_slot e.transfers handle)) [
          | inl n ↦
              subst (λ (x : Engine P). Keeps k e.loops x.loops)
                (sym (import_stale f P e target handle position mode gain s.0 s.1 n)) no
          | inr t ↦
              subst (λ (x : Engine P). Keeps k e.loops x.loops)
                (sym (import_found f P e target handle position mode gain s.0 t.0 s.1 t.1))
                (other-Keeps k target e.loops _ ne)
        ]
      ]

  pub request_loop_export-Spares :
      (e : Engine P) (target : ℕ) (handle : PcmTransferHandle) (job : ExportJob F)
      → e.export_job ≡ some job
      → Spares k e (request_loop_export e target handle)
  unfolding give_back fail_transfer send_status
  request_loop_export-Spares e target handle job h =
      same-Spares k e _ (ap (λ (x : Engine P). x.loops) (export_busy e target handle job h))

  end_export_loops : (e : Engine P) → (end_export f P e).loops ≡ e.loops
  unfolding give_back fail_transfer send_status
  end_export_loops e = elim (Option-cases e.export_job) [
    | inl n ↦ ap (λ (x : Engine P). x.loops) (end_idle f P e n)
    | inr job ↦ ap (λ (x : Engine P). x.loops) (end_busy f P e job.0 job.1)
  ]

  pub shutdown-Spares : (e t : Engine P) → IsEngine e → shutdown f P e ≡ some t → Spares k e t
  unfolding shutdown Spares send_status on_mixer
  shutdown-Spares e t v h =
      let a =
        stop_recording-IsStopped f P (record e { running = false }) false (shut-IsEngine f P e v) in
      let quiet = on_mixer (end_export f P a.0) (λ m. call f m shutdown_synth) in
      let same : t ≡ send_status quiet shutdown_complete =
        some-injective _ _ (sym h ∙ (rw a.1 refl)) in
      subst (λ (x : Engine P). Keeps k e.loops x.loops) (sym same)
        (Keeps-trans k e.loops a.0.loops _ (a.3 k)
          (same-Keeps k a.0.loops _ (end_export_loops a.0)))

  pub record_loop-Spares :
      (e t : Engine P) (command : RuntimeCommand F) (slot : ℕ)
      → IsEngine e
      → 2 ≤ P.ready e.loop_storage
      → slot ≢ k
      → record_loop f P e command slot ≡ some t
      → Spares k e t
  unfolding Spares SparesOthers
  record_loop-Spares e t command slot v r ne h =
      let a = record_loop-IsEngine f P e command slot v r in
      let same : t ≡ a.0 = some-injective _ _ (sym h ∙ a.1) in
      subst (λ (x : Engine P). Keeps k e.loops x.loops) (sym same) (a.3 k ne)

  pub stop-Spares :
      (e t : Engine P) → IsEngine e → request_stop_recording f P e true ≡ some t → Spares k e t
  unfolding Spares
  stop-Spares e t v h =
      let a = request_stop_recording-Follows f P e true v in
      let same : t ≡ a.0 = some-injective _ _ (sym h ∙ a.1) in
      subst (λ (x : Engine P). Keeps k e.loops x.loops) (sym same) (a.2.keeps k)
