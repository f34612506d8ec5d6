-- ===== src/Engine/Transfer/Slots.antt =====
-- src/native_dsp_graph.rs: what the operations on the transfer slots read and write.
use freewheeling_plus.Prelude.{
  get_elem?-lt, ℕ, suc, ◌+◌, ◌%◌, ◌^◌, ◌≤◌, ◌≡◌, ◌≢◌, refl, sym, ap, ◌∙◌, true, false, none, some,
  List, [], ◌∷◌, ◌==◌, length, get_elem?, set, get_elem?-set_self, arith, Bool-cases, inl, inr,
  Option-cases, ok,
}
use freewheeling_plus.Prelude.Options.{keep_if-some}
use freewheeling_plus.Engine.Command.{PcmTransferHandle}
use freewheeling_plus.Engine.Transfer.{
  TransferSlot, TransferPool, control, is_free, next_generation, handle_of, slot, acquire_from,
  acquire, put,
}

pub next_generation_ne : (g : ℕ) → next_generation g ≢ g
unfolding next_generation
next_generation_ne g e = absurd (omega arith)

module _ {F : Type 0} where
  -- A handle finds the slot at its index when the generations agree.
  pub slot-some :
      (pool : TransferPool F) (h : PcmTransferHandle) (t : TransferSlot F)
      → slot pool h ≡ some t
      → (get_elem? pool.slots h.index ≡ some t) × (t.generation ≡ h.generation)
  unfolding slot
  slot-some pool h t e =
      let p = keep_if-some (λ t. t.generation == h.generation) (get_elem? pool.slots h.index) t e in
      (p.0, ground arith)

  pub slot-match :
      (pool : TransferPool F) (h : PcmTransferHandle) (t : TransferSlot F)
      → get_elem? pool.slots h.index ≡ some t
      → t.generation ≡ h.generation
      → slot pool h ≡ some t
  unfolding slot
  slot-match pool h t e g =
      let same : (t.generation == h.generation) ≡ true = ground arith in rw e (rw same refl)

  pub slot-mismatch :
      (pool : TransferPool F) (h : PcmTransferHandle) (t : TransferSlot F)
      → get_elem? pool.slots h.index ≡ some t
      → t.generation ≢ h.generation
      → slot pool h ≡ none
  unfolding slot
  slot-mismatch pool h t e g =
      let differ : (t.generation == h.generation) ≡ false = ground arith in rw e (rw differ refl)

  -- A slot that keeps its generation is found again, as it was put.
  pub slot-put :
      (pool : TransferPool F) (h : PcmTransferHandle) (old t : TransferSlot F)
      → slot pool h ≡ some old
      → t.generation ≡ old.generation
      → slot (put pool h t) h ≡ some t
  unfolding put
  slot-put pool h old t e g =
      let p = slot-some pool h old e in
      slot-match (record pool { slots = set pool.slots h.index t }) h t
        (get_elem?-set_self pool.slots h.index t (get_elem?-lt pool.slots h.index p.0)) (g ∙ p.1)

  -- `acquire_from` takes a free slot, and changes no other.
  pub acquire_from-some :
      (index : ℕ) (ts us : List (TransferSlot F)) (h : PcmTransferHandle)
      → acquire_from index ts ≡ some (us, h)
      → (k : ℕ) × (t : TransferSlot F) × (get_elem? ts k ≡ some t)
        × (is_free t.state ≡ true)
        × (us ≡ set ts k (record t { state = control; generation = next_generation t.generation }))
        × (h ≡ handle_of (index + k) (next_generation t.generation))
  unfolding acquire_from
  acquire_from-some index [] us h e = absurd cc
  acquire_from-some index (t ∷ ts) us h e = elim (Bool-cases (is_free t.state)) [
    | inl here ↦ (0, t, refl, here, cc, rw (zero_right index) cc)
    | inr later ↦ elim (Option-cases (acquire_from (suc index) ts)) [
      | inl nothing ↦ absurd cc
      | inr found ↦
          let rest = acquire_from-some (suc index) ts found.0.0 found.0.1 found.1 in
          let kept : h ≡ found.0.1 = cc in
          (
            suc rest.0,
            rest.1,
            rest.2,
            rest.3,
            cc,
            kept
                ∙ (rest.5
                    ∙ ap (λ n. handle_of n (next_generation rest.1.generation))
                        (shift index rest.0)),
          )
    ]
  ]
    where
      zero_right : (n : ℕ) → n + 0 ≡ n
      zero_right n = omega arith

      shift : (n k : ℕ) → suc n + k ≡ n + suc k
      shift n k = omega arith

  -- `acquire` with at most 65536 slots: the new handle names a slot that was free.
  pub record IsAcquired (pool next : TransferPool F) (h : PcmTransferHandle) : Type 0 where
    pub taken : TransferSlot F
    pub found : get_elem? pool.slots h.index ≡ some taken
    pub was_free : is_free taken.state ≡ true
    pub renewed : h.generation ≡ next_generation taken.generation
    pub kept :
        next
        ≡ put pool h
            (record taken { state = control; generation = next_generation taken.generation })

  pub acquire-IsAcquired :
      (pool next : TransferPool F) (h : PcmTransferHandle)
      → length pool.slots ≤ 65536
      → acquire pool ≡ ok (next, h)
      → IsAcquired pool next h
  unfolding acquire handle_of put
  acquire-IsAcquired pool next h few e = elim (Option-cases (acquire_from 0 pool.slots)) [
    | inl nothing ↦ absurd cc
    | inr found ↦
        let r = acquire_from-some 0 pool.slots found.0.0 found.0.1 found.1 in
        let same : h ≡ found.0.1 = cc in
        let in_range : (0 + r.0) % 2 ^ 16 ≡ r.0 =
          omega (arith, few, get_elem?-lt pool.slots r.0 r.2) in
        let at : h.index ≡ r.0 = ap (λ k. k.index) (same ∙ r.5) ∙ in_range in
        let updated : next ≡ record pool { slots = found.0.0 } = cc in
        let renewed : TransferSlot F = record r.1 {
          state = control;
          generation = next_generation r.1.generation;
        } in
        record {
          taken = r.1;
          found = ap (get_elem? pool.slots) at ∙ r.2;
          was_free = r.3;
          renewed = ap (λ k. k.generation) (same ∙ r.5);
          kept =
              updated
              ∙ (ap (λ us. record pool { slots = us }) r.4
                  ∙ ap (λ i. record pool { slots = set pool.slots i renewed }) (sym at));
        }
  ]
