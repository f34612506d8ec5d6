-- ===== src/Engine/Transfer/Handles.antt =====
-- src/native_dsp_graph.rs: which handles a pool of transfer slots accepts.
use mathlib.Core.Option.{some-injective}
use freewheeling_plus.Prelude.{
  get_elem?-lt, ◌≤◌, ◌≡◌, ◌≢◌, refl, sym, ap, ◌∙◌, true, false, none, some, List, [], ◌∷◌, ◌++◌,
  ◌==◌, ltb, if◌then◌else◌, length, get_elem?, set, get_elem?-set_self, get_elem?-set_ne, arith,
  Bool-cases, inl, inr, Option-cases, ok, err, take, drop,
}
use freewheeling_plus.Prelude.Options.{keep_if-some, keep_if}
use freewheeling_plus.Engine.Command.{PcmTransferHandle}
use freewheeling_plus.Engine.Transfer.{
  TransferSlot, TransferPool, TransferState, free, control, queued, callback, exported, is_free,
  is_control, is_exported, owned, write_slot, next_generation, slot, acquire, put, write_transfer,
  with_exported_pcm, release_transfer, overwrite, grow, invalid_handle,
}
use freewheeling_plus.Engine.Transfer.Slots.{
  next_generation_ne, slot-some, slot-mismatch, slot-put, acquire-IsAcquired,
}

-- A free slot is neither the control thread's nor exported.
free-not_owned :
    (s : TransferState) → is_free s ≡ true → (is_control s ≡ false) × (is_exported s ≡ false)
unfolding is_free is_control is_exported
free-not_owned free h = (refl, refl)
free-not_owned control h = absurd cc
free-not_owned queued h = (refl, refl)
free-not_owned callback h = (refl, refl)
free-not_owned exported h = absurd cc

take-append {ℓ} : {A : Type ℓ} (xs ys : List A) → take (length xs) (xs ++ ys) ≡ xs
take-append [] ys = refl
take-append (x ∷ xs) ys = ap (λ zs. x ∷ zs) (take-append xs ys)

module _ {F : Type 0} where
  owned_free :
      (t : TransferSlot F)
      → is_control t.state ≡ false
      → is_exported t.state ≡ false
      → owned t ≡ false
  unfolding owned
  owned_free t c x = rw c x

  -- What any handle finds in a pool of at most 65536 slots after `acquire` gave a handle: at the new
  -- handle's index only the new handle finds a slot, which belongs to the control thread; at every
  -- other index the handle finds what it found before.
  pub acquire-slot :
      (pool next : TransferPool F) (h k : PcmTransferHandle)
      → length pool.slots ≤ 65536
      → acquire pool ≡ ok (next, h)
      → (t : TransferSlot F) × (is_control t.state ≡ true)
        × (slot next k ≡ (
            if k.index == h.index
            then if h.generation == k.generation then some t else none
            else slot pool k))
  unfolding put slot is_control
  acquire-slot pool next h k few e =
      let a = acquire-IsAcquired pool next h few e in
      let t : TransferSlot F = record a.taken {
        state = control;
        generation = next_generation a.taken.generation;
      } in
      let placed : get_elem? (set pool.slots h.index t) h.index ≡ some t =
        get_elem?-set_self pool.slots h.index t (get_elem?-lt pool.slots h.index a.found) in
      (
        t,
        refl,
        ap (λ p. slot p k) a.kept ∙ elim (Bool-cases (k.index == h.index)) [
          | inl here ↦
              let same : k.index ≡ h.index = ground arith in
              rw here (
                ap (λ o. keep_if (λ t. t.generation == k.generation) o)
                  (ap (get_elem? (set pool.slots h.index t)) same ∙ placed)
                ∙ ap (λ g. if g == k.generation then some t else none) (sym a.renewed))
          | inr away ↦
              let other : h.index ≢ k.index = λ e. absurd (ground arith) in
              rw away (
                ap (λ o. keep_if (λ t. t.generation == k.generation) o)
                  (get_elem?-set_ne pool.slots t other))
        ],
      )

  -- A handle that found the slot which `acquire` takes finds nothing afterwards: each acquisition
  -- makes the earlier handles of its slot stale.
  pub acquire-stale :
      (pool next : TransferPool F) (h k : PcmTransferHandle) (old : TransferSlot F)
      → length pool.slots ≤ 65536
      → acquire pool ≡ ok (next, h)
      → slot pool k ≡ some old
      → k.index ≡ h.index
      → slot next k ≡ none
  unfolding put
  acquire-stale pool next h k old few e before same =
      let a = acquire-IsAcquired pool next h few e in
      let t : TransferSlot F = record a.taken {
        state = control;
        generation = next_generation a.taken.generation;
      } in
      let placed : get_elem? (set pool.slots h.index t) k.index ≡ some t =
        ap (get_elem? (set pool.slots h.index t)) same
        ∙ get_elem?-set_self pool.slots h.index t (get_elem?-lt pool.slots h.index a.found) in
      let was = slot-some pool k old before in
      let taken : old ≡ a.taken =
        some-injective old a.taken (sym was.0 ∙ (ap (get_elem? pool.slots) same ∙ a.found)) in
      ap (λ p. slot p k) a.kept
      ∙ slot-mismatch (put pool h t) k t placed (λ e.
        next_generation_ne a.taken.generation (e ∙ (sym was.1 ∙ ap (λ u. u.generation) taken)))

  release_transfer-ok :
      (silence : F) (pool next : TransferPool F) (h : PcmTransferHandle)
      → release_transfer silence pool h ≡ ok next
      → (t : TransferSlot F) × (slot next h ≡ some t) × (is_free t.state ≡ true)
  unfolding release_transfer is_free
  release_transfer-ok silence pool next h e = elim (Option-cases (keep_if owned (slot pool h))) [
    | inl nothing ↦ absurd cc
    | inr found ↦
        let p = keep_if-some owned (slot pool h) found.0 found.1 in
        let t : TransferSlot F = record found.0 {
          state = free;
          pcm = record {
            left = grow silence pool.capacity found.0.pcm.left;
            right = grow silence pool.capacity found.0.pcm.right;
            len = 0;
          };
        } in
        let kept : next ≡ put pool h t = cc in
        (t, ap (λ q. slot q h) kept ∙ slot-put pool h found.0 t p.0 refl, refl)
  ]

  -- Each use of a handle after `release_transfer` is refused: reading, writing, and a second
  -- release.
  pub release_transfer-refused :
      (silence : F) (pool next : TransferPool F) (h : PcmTransferHandle) (left right : List F)
      → release_transfer silence pool h ≡ ok next
      → length left ≡ length right
      → (with_exported_pcm next h ≡ some (err invalid_handle))
        × (write_transfer next h left right ≡ some (err invalid_handle))
        × (release_transfer silence next h ≡ err invalid_handle)
  unfolding with_exported_pcm write_transfer release_transfer
  release_transfer-refused silence pool next h left right e sized =
      let r = release_transfer-ok silence pool next h e in
      let (controlled, read) = free-not_owned r.0.state r.2 in
      let equal : (length left == length right) ≡ true = ground arith in
      (
        rw (r.1, with_exported_pcm) (rw (read, with_exported_pcm) refl),
        rw equal (rw (r.1, write_transfer) (rw (controlled, write_transfer) refl)),
        rw r.1 (rw (owned_free r.0 controlled read) refl),
      )

  take-overwrite : (pcm samples : List F) → take (length samples) (overwrite pcm samples) ≡ samples
  unfolding overwrite
  take-overwrite pcm samples = take-append samples (drop (length samples) pcm)

  -- What a successful `write_transfer` leaves at its handle: the slot is still the control thread's,
  -- and its frames in use are exactly the samples that were written, on both channels.
  pub write_transfer-samples :
      (pool next : TransferPool F) (h : PcmTransferHandle) (left right : List F)
      → write_transfer pool h left right ≡ some (ok next)
      → (t : TransferSlot F) × (slot next h ≡ some t)
        × (is_control t.state ≡ true)
        × (take t.pcm.len t.pcm.left ≡ left)
        × (take t.pcm.len t.pcm.right ≡ right)
  unfolding write_transfer write_slot
  write_transfer-samples pool next h left right e =
      elim (Bool-cases (length left == length right)) [
        | inr differ ↦ absurd cc
        | inl equal ↦ elim (Option-cases (keep_if (λ t. is_control t.state) (slot pool h))) [
          | inl nothing ↦ absurd cc
          | inr found ↦ elim (Bool-cases (ltb (length found.0.pcm.left) (length left))) [
            | inl long ↦ absurd cc
            | inr fits ↦ elim (Bool-cases (ltb (length found.0.pcm.right) (length left))) [
              | inl short ↦ absurd cc
              | inr room ↦
                  let p = keep_if-some (λ t. is_control t.state) (slot pool h) found.0 found.1 in
                  let t : TransferSlot F = record found.0 {
                    pcm = record {
                      left = overwrite found.0.pcm.left left;
                      right = overwrite found.0.pcm.right right;
                      len = length left;
                    };
                  } in
                  let kept : next ≡ put pool h t = cc in
                  let sized : length left ≡ length right = ground arith in
                  (
                    t,
                    ap (λ q. slot q h) kept ∙ slot-put pool h found.0 t p.0 refl,
                    p.1,
                    take-overwrite found.0.pcm.left left,
                    ap (λ n. take n (overwrite found.0.pcm.right right)) sized
                        ∙ take-overwrite found.0.pcm.right right,
                  )
            ]
          ]
        ]
      ]
