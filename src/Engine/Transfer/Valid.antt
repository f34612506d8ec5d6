-- ===== src/Engine/Transfer/Valid.antt =====
-- src/native_dsp_graph.rs: the well-formed pools of transfer slots, and the operations that keep them so.
use freewheeling_plus.Prelude.{
  All-get, All-set, subst, ℕ, ◌-◌, ◌≤◌, ◌≡◌, refl, sym, true, false, some, List, ◌==◌, ltb, length,
  length-append, length-replicate, length-drop, length-set, replicate, drop, arith, Bool-cases, inl,
  inr, Option-cases, ok, err, Result, none, take, All, ◌∙◌,
}
use freewheeling_plus.Prelude.Options.{keep_if-some, keep_if}
use freewheeling_plus.Engine.Command.{PcmTransferHandle}
use freewheeling_plus.Engine.Transfer.{
  TransferSlot, TransferPool, TransferState, free, control, queued, callback, exported, is_free,
  is_control, owned, next_generation, slot, acquire, put, write_transfer, release_transfer,
  overwrite, grow, write_slot, with_exported_pcm, has_frames, PcmTransferError, pcm_too_long,
  channel_length_mismatch, invalid_handle, is_exported,
}
use freewheeling_plus.Engine.Transfer.Slots.{slot-some, acquire-IsAcquired}

-- The two vectors are equally long, the frames in use lie within them, and those of a free slot have the pool's capacity.
pub record IsSlot {F : Type 0} (capacity : ℕ) (t : TransferSlot F) : Type 0 where
  pub fits : t.pcm.len ≤ length t.pcm.left
  pub level : length t.pcm.left ≡ length t.pcm.right
  pub ready : is_free t.state ≡ true → capacity ≤ length t.pcm.left

-- Handles have a `u16` for each slot, and every slot is well formed.
pub record IsValid {F : Type 0} (pool : TransferPool F) : Type 0 where
  pub few : length pool.slots ≤ 65536
  pub slots_valid : All (IsSlot pool.capacity) pool.slots

-- A result that gives a pool.
accepted : {F : Type 0} → TransferPool F → Result PcmTransferError (TransferPool F)
accepted a = ok a

ok_of : {F : Type 0} (a b : TransferPool F) → accepted a ≡ accepted b → a ≡ b
unfolding accepted
ok_of a b e = cc

control-not_free : (s : TransferState) → is_control s ≡ true → is_free s ≡ true → ⊥
unfolding is_control is_free
control-not_free free c f = absurd cc
control-not_free control c f = absurd cc
control-not_free queued c f = absurd cc
control-not_free callback c f = absurd cc
control-not_free exported c f = absurd cc

module _ {F : Type 0} where
  pub put-IsValid :
      (pool : TransferPool F) (h : PcmTransferHandle) (t : TransferSlot F)
      → IsValid pool
      → IsSlot pool.capacity t
      → IsValid (put pool h t)
  unfolding put
  put-IsValid pool h t v s = record {
    few = omega (arith, v.few, length-set pool.slots h.index t);
    slots_valid = All-set (IsSlot pool.capacity) pool.slots h.index t v.slots_valid s;
  }

  pub slot-IsSlot :
      (pool : TransferPool F) (h : PcmTransferHandle) (t : TransferSlot F)
      → IsValid pool
      → slot pool h ≡ some t
      → IsSlot pool.capacity t
  slot-IsSlot pool h t v e =
      All-get (IsSlot pool.capacity) pool.slots h.index t v.slots_valid (slot-some pool h t e).0

  -- A slot in use, with the frames of a well-formed one.
  pub in_use :
      (capacity : ℕ) (t : TransferSlot F) (s : TransferState) (g : ℕ)
      → IsSlot capacity t
      → is_free s ≡ false
      → IsSlot capacity (record t { state = s; generation = g })
  in_use capacity t s g v busy = record { fits = v.fits; level = v.level; ready = λ e. absurd cc }

  length-overwrite : (pcm samples : List F) → length samples ≤ length (overwrite pcm samples)
  unfolding overwrite
  length-overwrite pcm samples = omega (arith, length-append samples (drop (length samples) pcm))

  overwrite_level :
      (pl pr left right : List F)
      → length pl ≡ length pr
      → (length left == length right) ≡ true
      → length (overwrite pl left) ≡ length (overwrite pr right)
  unfolding overwrite
  overwrite_level pl pr left right p e =
      let same : length left ≡ length right = ground arith in
      omega (
        arith,
        p,
        same,
        length-append left (drop (length left) pl),
        length-append right (drop (length right) pr),
        length-drop (length left) pl,
        length-drop (length right) pr,
      )

  grow_level :
      (silence : F) (capacity : ℕ) (l r : List F)
      → length l ≡ length r
      → length (grow silence capacity l) ≡ length (grow silence capacity r)
  unfolding grow
  grow_level silence capacity l r p = ground (
    arith,
    length-append l (replicate (capacity - length l) silence),
    length-append r (replicate (capacity - length r) silence),
    length-replicate (capacity - length l) silence,
    length-replicate (capacity - length r) silence,
  )

  length-grow :
      (silence : F) (capacity : ℕ) (pcm : List F) → capacity ≤ length (grow silence capacity pcm)
  unfolding grow
  length-grow silence capacity pcm = ground (
    arith,
    length-append pcm (replicate (capacity - length pcm) silence),
    length-replicate (capacity - length pcm) silence,
  )

  write_slot-IsValid :
      (pool : TransferPool F) (h : PcmTransferHandle) (left right : List F) (t : TransferSlot F)
      → IsValid pool
      → IsSlot pool.capacity t
      → is_control t.state ≡ true
      → (length left == length right) ≡ true
      → (r : Result PcmTransferError (TransferPool F)) × (write_slot pool h left right t ≡ some r)
        × ((next : TransferPool F) → r ≡ ok next → IsValid next)
  unfolding write_slot accepted
  write_slot-IsValid pool h left right t v held mine equal =
      elim (Bool-cases (ltb (length t.pcm.left) (length left))) [
        | inl long ↦ (err pcm_too_long, rw long refl, λ next e. absurd cc)
        | inr fits ↦
            let room : ltb (length t.pcm.right) (length left) ≡ false =
              ground (arith, fits, held.level) in
            let u : TransferSlot F = record t {
              pcm = record {
                left = overwrite t.pcm.left left;
                right = overwrite t.pcm.right right;
                len = length left;
              };
            } in
            let kept = put-IsValid pool h u v (record {
              fits = length-overwrite t.pcm.left left;
              level = overwrite_level t.pcm.left t.pcm.right left right held.level equal;
              ready = λ e. absurd (control-not_free t.state mine e);
            }) in
            (
              ok (put pool h u),
              rw fits (rw room refl),
              λ next e. subst IsValid (ok_of _ next e) kept,
            )
      ]

  write_transfer-differ :
      (pool : TransferPool F) (h : PcmTransferHandle) (left right : List F)
      → (length left == length right) ≡ false
      → write_transfer pool h left right ≡ some (err channel_length_mismatch)
  unfolding write_transfer
  write_transfer-differ pool h left right e = rw e refl

  write_transfer-none :
      (pool : TransferPool F) (h : PcmTransferHandle) (left right : List F)
      → (length left == length right) ≡ true
      → keep_if (λ t. is_control t.state) (slot pool h) ≡ none
      → write_transfer pool h left right ≡ some (err invalid_handle)
  unfolding write_transfer
  write_transfer-none pool h left right e n = cc

  write_transfer-some :
      (pool : TransferPool F) (h : PcmTransferHandle) (left right : List F) (t : TransferSlot F)
      → (length left == length right) ≡ true
      → keep_if (λ t. is_control t.state) (slot pool h) ≡ some t
      → write_transfer pool h left right ≡ write_slot pool h left right t
  unfolding write_transfer
  write_transfer-some pool h left right t e n = cc

  -- The slices of the call are in range.
  pub write_transfer-IsValid :
      (pool : TransferPool F) (h : PcmTransferHandle) (left right : List F)
      → IsValid pool
      → (r : Result PcmTransferError (TransferPool F)) × (write_transfer pool h left right ≡ some r)
        × ((next : TransferPool F) → r ≡ ok next → IsValid next)
  write_transfer-IsValid pool h left right v = elim (Bool-cases (length left == length right)) [
    | inr differ ↦ (
      err channel_length_mismatch,
      write_transfer-differ pool h left right differ,
      λ next e. absurd cc,
    )
    | inl equal ↦ elim (Option-cases (keep_if (λ t. is_control t.state) (slot pool h))) [
      | inl nothing ↦ (
        err invalid_handle,
        write_transfer-none pool h left right equal nothing,
        λ next e. absurd cc,
      )
      | inr found ↦
          let p = keep_if-some (λ t. is_control t.state) (slot pool h) found.0 found.1 in
          let w =
            write_slot-IsValid pool h left right found.0 v (slot-IsSlot pool h found.0 v p.0) p.1
              equal in
          (w.0, write_transfer-some pool h left right found.0 equal found.1 ∙ w.1, w.2)
    ]
  ]

  pub slot-has_frames :
      (capacity : ℕ) (t : TransferSlot F) → IsSlot capacity t → has_frames t ≡ true
  unfolding has_frames
  slot-has_frames capacity t v = ground (arith, v.fits, v.level)

  -- So is that of `with_exported_pcm`.
  pub with_exported_pcm-some :
      (pool : TransferPool F) (h : PcmTransferHandle)
      → IsValid pool
      → (r : Result PcmTransferError (List F × List F)) × (with_exported_pcm pool h ≡ some r)
  unfolding with_exported_pcm
  with_exported_pcm-some pool h v =
      elim (Option-cases (keep_if (λ t. is_exported t.state) (slot pool h))) [
        | inl nothing ↦ (err invalid_handle, cc)
        | inr found ↦
            let p = keep_if-some (λ t. is_exported t.state) (slot pool h) found.0 found.1 in
            let whole = slot-has_frames pool.capacity found.0 (slot-IsSlot pool h found.0 v p.0) in
            (
              ok (take found.0.pcm.len found.0.pcm.left, take found.0.pcm.len found.0.pcm.right),
              rw (found.1, with_exported_pcm) (rw (whole, with_exported_pcm) refl),
            )
      ]

  pub release_transfer-IsValid :
      (silence : F) (pool next : TransferPool F) (h : PcmTransferHandle)
      → IsValid pool
      → release_transfer silence pool h ≡ ok next
      → IsValid next
  unfolding release_transfer
  release_transfer-IsValid silence pool next h v e =
      elim (Option-cases (keep_if owned (slot pool h))) [
        | inl nothing ↦ absurd cc
        | inr found ↦
            let t : TransferSlot F = record found.0 {
              state = free;
              pcm = record {
                left = grow silence pool.capacity found.0.pcm.left;
                right = grow silence pool.capacity found.0.pcm.right;
                len = 0;
              };
            } in
            let kept : put pool h t ≡ next = cc in
            subst IsValid kept (
              put-IsValid pool h t v (record {
                fits = omega arith;
                level =
                    grow_level silence pool.capacity found.0.pcm.left found.0.pcm.right
                      (slot-IsSlot pool h found.0 v
                        (keep_if-some owned (slot pool h) found.0 found.1).0).level;
                ready = λ e. length-grow silence pool.capacity found.0.pcm.left;
              }))
      ]

  pub acquire-IsValid :
      (pool next : TransferPool F) (h : PcmTransferHandle)
      → IsValid pool
      → acquire pool ≡ ok (next, h)
      → IsValid next
  unfolding is_free
  acquire-IsValid pool next h v e =
      let a = acquire-IsAcquired pool next h v.few e in
      let well = All-get (IsSlot pool.capacity) pool.slots h.index a.taken v.slots_valid a.found in
      subst IsValid (sym a.kept) (
        put-IsValid pool h _ v
          (in_use pool.capacity a.taken control (next_generation a.taken.generation) well refl))
