-- ===== src/Engine/Transfer/Safety.antt =====
-- src/native_dsp_graph.rs: what holds of the transfer slots after every call of the control endpoint.

use freewheeling_plus.Prelude.{
  get_elem?-lt, All-get, subst, ℕ, ◌≡◌, refl, sym, ap, ◌∙◌, Option, none, some, List, true,
  get_elem?, set, get_elem?-set_self, inl, inr, Option-cases, Result, ok, err, Result-cases,
}
use freewheeling_plus.Prelude.Options.{keep_if-some, keep_if}
use freewheeling_plus.Queue.{Queue, try_send}
use freewheeling_plus.Queue.Ring.{RingBuffer}
use freewheeling_plus.Engine.Command.{
  PcmTransferHandle, LoopMode, RuntimeCommand, import_loop, request_loop_export,
}
use freewheeling_plus.Engine.Transfer.{
  TransferSlot, TransferPool, TransferState, Endpoint, free, control, queued, is_free, owned,
  next_generation, slot, acquire, put, write_transfer, release_transfer, sent_or, try_import_loop,
  try_request_loop_export, with_exported_pcm, has_frames, invalid_handle, PcmTransferError,
}
use freewheeling_plus.Engine.Transfer.Slots.{slot-match, acquire-IsAcquired}
use freewheeling_plus.Engine.Transfer.Valid.{
  IsSlot, IsValid, put-IsValid, slot-IsSlot, in_use, write_transfer-IsValid,
  release_transfer-IsValid, acquire-IsValid, slot-has_frames, with_exported_pcm-some,
}

module _ {F : Type 0} (R : RingBuffer (RuntimeCommand F)) where
  -- Both ends of a call that sends a command keep the pool valid.
  sent_or-IsValid :
      {A : Type 0} (e : Endpoint R) (h : PcmTransferHandle) (t : TransferSlot F)
      (back : TransferState) (a : A) (r : Queue R × Result (RuntimeCommand F) (Unit {0}))
      → IsValid e.transfers
      → IsSlot e.transfers.capacity t
      → IsSlot e.transfers.capacity (record t { state = back })
      → IsValid (sent_or R e h t back a r).0.transfers
  unfolding sent_or is_free
  sent_or-IsValid e h t back a (commands, ok _) v used returned =
      put-IsValid e.transfers h (record t { state = queued }) v
        (in_use e.transfers.capacity t queued t.generation used refl)
  sent_or-IsValid e h t back a (commands, err _) v used returned =
      put-IsValid e.transfers h (record t { state = back }) v returned

  try_import_loop-none :
      (e : Endpoint R) (target : ℕ) (h : PcmTransferHandle) (position : ℕ) (mode : LoopMode)
      (gain : F)
      → keep_if owned (slot e.transfers h) ≡ none
      → try_import_loop R e target h position mode gain ≡ some (e, err invalid_handle)
  unfolding try_import_loop
  try_import_loop-none e target h position mode gain found = cc

  try_import_loop-some :
      (e : Endpoint R) (target : ℕ) (h : PcmTransferHandle) (position : ℕ) (mode : LoopMode)
      (gain : F) (t : TransferSlot F)
      → keep_if owned (slot e.transfers h) ≡ some t
      → has_frames t ≡ true
      → try_import_loop R e target h position mode gain
        ≡ some (
            sent_or R e h t control tt
              (try_send R e.commands (import_loop target h position mode gain)))
  unfolding try_import_loop
  try_import_loop-some e target h position mode gain t found whole =
      rw (found, try_import_loop) (rw (whole, try_import_loop) refl)

  try_request_loop_export-err :
      (e : Endpoint R) (target : ℕ) (reason : PcmTransferError)
      → acquire e.transfers ≡ err reason
      → try_request_loop_export R e target ≡ some (e, err reason)
  unfolding try_request_loop_export
  try_request_loop_export-err e target reason failed = cc

  try_request_loop_export-ok :
      (e : Endpoint R) (target : ℕ) (next : TransferPool F) (h : PcmTransferHandle)
      (t : TransferSlot F)
      → acquire e.transfers ≡ ok (next, h)
      → slot next h ≡ some t
      → try_request_loop_export R e target
        ≡ some (
            sent_or R
              (record e { transfers = next })
              h
              t
              free
              h
              (try_send R e.commands (request_loop_export target h)))
  unfolding try_request_loop_export
  try_request_loop_export-ok e target next h t acquired found = cc

  -- The import keeps the pool valid, and its slices are in range.
  try_import_loop-IsValid :
      (e : Endpoint R) (target : ℕ) (h : PcmTransferHandle) (position : ℕ) (mode : LoopMode)
      (gain : F)
      → IsValid e.transfers
      → (r : Endpoint R × Result PcmTransferError (Unit {0})) × (try_import_loop R e target h
            position mode gain
          ≡ some r)
        × IsValid r.0.transfers
  unfolding is_free
  try_import_loop-IsValid e target h position mode gain v =
      elim (Option-cases (keep_if owned (slot e.transfers h))) [
        | inl nothing ↦
            ((e, err invalid_handle), try_import_loop-none e target h position mode gain nothing, v)
        | inr found ↦
            let p = keep_if-some owned (slot e.transfers h) found.0 found.1 in
            let well = slot-IsSlot e.transfers h found.0 v p.0 in
            let sent = try_send R e.commands (import_loop target h position mode gain) in
            (
              sent_or R e h found.0 control tt sent,
              try_import_loop-some e target h position mode gain found.0 found.1
                  (slot-has_frames e.transfers.capacity found.0 well),
              sent_or-IsValid e h found.0 control tt sent v well
                  (in_use e.transfers.capacity found.0 control found.0.generation well refl),
            )
      ]

  -- The export request keeps the pool valid, and does not reach the panic of its `unwrap`.
  try_request_loop_export-IsValid :
      (e : Endpoint R) (target : ℕ)
      → IsValid e.transfers
      → (r : Endpoint R × Result PcmTransferError PcmTransferHandle) × (try_request_loop_export R e
            target
          ≡ some r)
        × IsValid r.0.transfers
  unfolding is_free put
  try_request_loop_export-IsValid e target v = elim (Result-cases (acquire e.transfers)) [
    | inr failed ↦ ((e, err failed.0), try_request_loop_export-err e target failed.0 failed.1, v)
    | inl acquired ↦
        let next = acquired.0.0 in
        let h = acquired.0.1 in
        let a = acquire-IsAcquired e.transfers next h v.few acquired.1 in
        let well =
          All-get (IsSlot e.transfers.capacity) e.transfers.slots h.index a.taken v.slots_valid
            a.found in
        let t : TransferSlot F = record a.taken {
          state = control;
          generation = next_generation a.taken.generation;
        } in
        let used = in_use e.transfers.capacity a.taken control t.generation well refl in
        let placed = put-IsValid e.transfers h t v used in
        let at : get_elem? (set e.transfers.slots h.index t) h.index ≡ some t =
          get_elem?-set_self e.transfers.slots h.index t
            (get_elem?-lt e.transfers.slots h.index a.found) in
        let found : slot next h ≡ some t =
          ap (λ p. slot p h) a.kept ∙ slot-match (put e.transfers h t) h t at (sym a.renewed) in
        let capacity : e.transfers.capacity ≡ next.capacity = sym (ap (λ p. p.capacity) a.kept) in
        let freed : IsSlot e.transfers.capacity (record t { state = free }) = record {
          fits = well.fits;
          level = well.level;
          ready = λ _. well.ready a.was_free;
        } in
        let sent = try_send R e.commands (request_loop_export target h) in
        (
          sent_or R (record e { transfers = next }) h t free h sent,
          try_request_loop_export-ok e target next h t acquired.1 found,
          sent_or-IsValid (record e { transfers = next }) h t free h sent
              (subst IsValid (sym a.kept) placed) (subst (λ c. IsSlot c t) capacity used)
              (subst (λ c. IsSlot c (record t { state = free })) capacity freed),
        )
  ]

  pub data Call : Type 0 where
    acquires : Call
    writes : PcmTransferHandle → List F → List F → Call
    releases : F → PcmTransferHandle → Call
    imports : ℕ → PcmTransferHandle → ℕ → LoopMode → F → Call
    exports : ℕ → Call
    reads : PcmTransferHandle → Call

  -- The endpoint after a call that gives a new pool or an error.
  pub kept_or :
      {A : Type 0} → Endpoint R → (A → TransferPool F) → Result PcmTransferError A → Endpoint R
  kept_or e pool_of (ok a) = record e { transfers = pool_of a }
  kept_or e pool_of (err _) = e

  pub step : Endpoint R → Call → Option (Endpoint R)
  step e acquires = some (kept_or e (λ r. r.0) (acquire e.transfers))
  step e (writes h left right) = elim (write_transfer e.transfers h left right) [
    | none ↦ none
    | some r ↦ some (kept_or e (λ p. p) r)
  ]
  step e (releases silence h) = some (kept_or e (λ p. p) (release_transfer silence e.transfers h))
  step e (imports target h position mode gain) =
      elim (try_import_loop R e target h position mode gain) [ none ↦ none | some r ↦ some r.0 ]
  step e (exports target) = elim (try_request_loop_export R e target) [
    | none ↦ none
    | some r ↦ some r.0
  ]
  step e (reads h) = elim (with_exported_pcm e.transfers h) [ none ↦ none | some _ ↦ some e ]

  kept_or-IsValid :
      {A : Type 0} (e : Endpoint R) (pool_of : A → TransferPool F) (r : Result PcmTransferError A)
      → IsValid e.transfers
      → ((a : A) → r ≡ ok a → IsValid (pool_of a))
      → IsValid (kept_or e pool_of r).transfers
  unfolding kept_or
  kept_or-IsValid e pool_of (ok a) v f = f a refl
  kept_or-IsValid e pool_of (err _) v f = v

  step-exports :
      (e : Endpoint R) (target : ℕ) (r : Endpoint R × Result PcmTransferError PcmTransferHandle)
      → try_request_loop_export R e target ≡ some r
      → step e (exports target) ≡ some r.0
  unfolding step
  step-exports e target r made = cc

  step-writes :
      (e : Endpoint R) (h : PcmTransferHandle) (left right : List F)
      (r : Result PcmTransferError (TransferPool F))
      → write_transfer e.transfers h left right ≡ some r
      → step e (writes h left right) ≡ some (kept_or e (λ p. p) r)
  unfolding step
  step-writes e h left right r made = cc

  step-imports :
      (e : Endpoint R) (target : ℕ) (h : PcmTransferHandle) (position : ℕ) (mode : LoopMode)
      (gain : F) (r : Endpoint R × Result PcmTransferError (Unit {0}))
      → try_import_loop R e target h position mode gain ≡ some r
      → step e (imports target h position mode gain) ≡ some r.0
  unfolding step
  step-imports e target h position mode gain r made = cc

  step-reads :
      (e : Endpoint R) (h : PcmTransferHandle) (r : Result PcmTransferError (List F × List F))
      → with_exported_pcm e.transfers h ≡ some r
      → step e (reads h) ≡ some e
  unfolding step
  step-reads e h r made = cc

  -- From a valid pool no call of the control endpoint panics, neither in the `unwrap` of
  -- `try_request_loop_export` nor in a slice of a slot's vectors, and each leaves a valid pool: every slot's frames in use lie within
  -- its vectors, and a free slot has vectors of the full capacity, whatever the result and whether or
  -- not the command queue was full. The callback is not
  -- meant: its `ImportLoop` may leave a slot with more frames in use than its vectors have.
  pub step-IsSafe :
      (e : Endpoint R) (c : Call)
      → IsValid e.transfers
      → (next : Endpoint R) × (step e c ≡ some next) × IsValid next.transfers
  unfolding step
  step-IsSafe e acquires v = (
    kept_or e (λ r. r.0) (acquire e.transfers),
    refl,
    kept_or-IsValid e (λ r. r.0) (acquire e.transfers) v
        (λ a same. acquire-IsValid e.transfers a.0 a.1 v same),
  )
  step-IsSafe e (writes h left right) v =
      let (r, made, valid) = write_transfer-IsValid e.transfers h left right v in
      (
        kept_or e (λ p. p) r,
        step-writes e h left right r made,
        kept_or-IsValid e (λ p. p) r v valid,
      )
  step-IsSafe e (releases silence h) v = (
    kept_or e (λ p. p) (release_transfer silence e.transfers h),
    refl,
    kept_or-IsValid e (λ p. p) (release_transfer silence e.transfers h) v
        (λ p same. release_transfer-IsValid silence e.transfers p h v same),
  )
  step-IsSafe e (imports target h position mode gain) v =
      let (r, made, valid) = try_import_loop-IsValid e target h position mode gain v in
      (r.0, step-imports e target h position mode gain r made, valid)
  step-IsSafe e (exports target) v =
      let (r, made, valid) = try_request_loop_export-IsValid e target v in
      (r.0, step-exports e target r made, valid)
  step-IsSafe e (reads h) v =
      let (r, made) = with_exported_pcm-some e.transfers h v in (e, step-reads e h r made, v)
