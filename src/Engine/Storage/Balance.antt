-- ===== src/Engine/Storage/Balance.antt =====
-- src/native_dsp_graph.rs: the blocks that the callback can count on.
use freewheeling_plus.Prelude.{
  ℕ, zero, suc, ◌+◌, ◌-◌, ◌≤◌, ◌≡◌, refl, ap, ◌∙◌, some, List, [], ◌∷◌, ◌++◌, length, length-append,
  arith, inl, inr, List-cases, Option-cases, Result-cases,
}
use freewheeling_plus.Prelude.Options.{unwrap_or}
use freewheeling_plus.Queue.{try_send, try_recv, available_items}
use freewheeling_plus.Queue.Ring.{RingBuffer}
use freewheeling_plus.Queue.Calls.{contents, size, try_send_room, try_recv_front, try_recv_empty}
use freewheeling_plus.Engine.Storage.{
  Storage, default_audio_blocks, pop_last, collect_loop, collect_refills, take_block, add_block,
  release_blocks, drain_loop, send_loop, refill_loop_storage,
}
use freewheeling_plus.Engine.Storage.Turns.{
  collect_loop-none, collect_loop-some, release_blocks-ok, release_blocks-err, drain_loop-none,
  drain_loop-some, send_loop-ok,
}

length-pop_last {ℓ} :
    {A : Type ℓ} (x : A) (xs : List A)
    → (y : A) × (ys : List A) × (pop_last (x ∷ xs) ≡ (ys, some y)) × (length ys ≡ length xs)
unfolding pop_last
length-pop_last x [] = (x, [], refl, refl)
length-pop_last x (z ∷ zs) = let p = length-pop_last z zs in (p.0, x ∷ p.1, rw p.2 refl, ap suc p.3)

module _ {B : Type 0} (R : RingBuffer B) where
  -- Every block that left the pool is on its way back or requested; the queue of refills has a place
  -- for each of the 40, and `free` has room for them.
  pub record IsBalanced (s : Storage R) : Type 0 where
    pub balance : length s.free + length (contents R s.refills) + s.requests ≡ default_audio_blocks
    pub places : size R s.refills ≡ default_audio_blocks
    pub roomy : default_audio_blocks ≤ s.capacity

  pub collect_loop-IsBalanced :
      (room : ℕ) (s : Storage R)
      → IsBalanced s
      → IsBalanced (collect_loop R room s)
        × ((collect_loop R room s).requests ≡ s.requests)
        × (length (contents R (collect_loop R room s).refills)
            ≡ length (contents R s.refills) - room)
  unfolding collect_loop
  collect_loop-IsBalanced zero s b = (b, refl, omega arith)
  collect_loop-IsBalanced (suc room) s b = elim (List-cases (contents R s.refills)) [
    | inl empty ↦
        rw (collect_loop-none R room s s.refills (try_recv_empty R s.refills empty))
          (b, refl, omega (arith, ap length empty))
    | inr front ↦
        let q = try_recv_front R s.refills front.0 front.1 front.2 in
        let next : Storage R = record s { refills = q.0; free = s.free ++ front.0 ∷ [] } in
        let rest = collect_loop-IsBalanced room next (record {
          balance = omega (
            arith,
            b.balance,
            ap length q.2,
            ap length front.2,
            length-append s.free (front.0 ∷ []),
          );
          places = q.3 ∙ b.places;
          roomy = b.roomy;
        }) in
        rw (collect_loop-some R room s q.0 front.0 q.1)
          (rest.0, rest.1, omega (arith, rest.2, ap length q.2, ap length front.2))
  ]

  collect_refills-IsBalanced : (s : Storage R) → IsBalanced s → IsBalanced (collect_refills R s)
  unfolding collect_refills
  collect_refills-IsBalanced s b = (collect_loop-IsBalanced (s.capacity - length s.free) s b).0

  -- What leaves `free` is requested.
  take_block-IsBalanced :
      (s : Storage R) (blocks : List B)
      → IsBalanced s
      → IsBalanced (take_block R s blocks (pop_last s.free)).0
  unfolding take_block pop_last
  take_block-IsBalanced s blocks b = elim (List-cases s.free) [
    | inl empty ↦ rw (ap pop_last empty) (record {
      balance = omega (arith, b.balance, ap length empty);
      places = b.places;
      roomy = b.roomy;
    })
    | inr front ↦
        let p = length-pop_last front.0 front.1 in
        rw (ap pop_last front.2 ∙ p.2) (record {
          balance = omega (arith, b.balance, ap length front.2, p.3);
          places = b.places;
          roomy = b.roomy;
        })
  ]

  pub add_block-IsBalanced :
      (s : Storage R) (blocks : List B) → IsBalanced s → IsBalanced (add_block R s blocks).0
  unfolding add_block
  add_block-IsBalanced s blocks b =
      take_block-IsBalanced (collect_refills R s) blocks (collect_refills-IsBalanced s b)

  pub release_blocks-IsBalanced :
      (blocks : List B) (s : Storage R) → IsBalanced s → IsBalanced (release_blocks R s blocks).0
  unfolding release_blocks
  release_blocks-IsBalanced [] s b = b
  release_blocks-IsBalanced (storage ∷ blocks) s b =
      elim (Result-cases (try_send R s.returned storage).1) [
        | inl sent ↦ rw (release_blocks-ok R s storage blocks sent.1) (
            release_blocks-IsBalanced blocks
              (record s { returned = (try_send R s.returned storage).0 })
              (record { balance = b.balance; places = b.places; roomy = b.roomy }))
        | inr full ↦
            rw (release_blocks-err R s storage full.0 blocks full.1)
              (record { balance = b.balance; places = b.places; roomy = b.roomy })
      ]

  drain_loop-IsBalanced : (n : ℕ) (s : Storage R) → IsBalanced s → IsBalanced (drain_loop R n s)
  unfolding drain_loop
  drain_loop-IsBalanced zero s b = b
  drain_loop-IsBalanced (suc n) s b = elim (Option-cases (try_recv R s.returned).1) [
    | inl empty ↦
        rw (drain_loop-none R n s empty)
          (record { balance = b.balance; places = b.places; roomy = b.roomy })
    | inr front ↦ rw (drain_loop-some R n s front.0 front.1) (
        drain_loop-IsBalanced n
          (record s { returned = (try_recv R s.returned).0; recycled = s.recycled ++ front.0 ∷ [] })
          (record { balance = b.balance; places = b.places; roomy = b.roomy }))
  ]

  -- With the `requested` blocks still to be sent, every send finds a place.
  send_loop-IsBalanced :
      (fresh : B) (requested : ℕ) (s : Storage R)
      → length s.free + length (contents R s.refills) + requested + s.requests
        ≡ default_audio_blocks
      → size R s.refills ≡ default_audio_blocks
      → default_audio_blocks ≤ s.capacity
      → IsBalanced (send_loop R fresh requested s)
        × ((send_loop R fresh requested s).requests ≡ s.requests)
        × ((send_loop R fresh requested s).capacity ≡ s.capacity)
        × ((send_loop R fresh requested s).free ≡ s.free)
  unfolding send_loop
  send_loop-IsBalanced fresh zero s balance places roomy = (
    record { balance = omega (arith, balance); places = places; roomy = roomy },
    refl,
    refl,
    refl,
  )
  send_loop-IsBalanced fresh (suc remaining) s balance places roomy =
      let block = unwrap_or (pop_last s.recycled).1 fresh in
      let q = try_send_room R s.refills block (omega (arith, balance, places)) in
      rw (send_loop-ok R fresh remaining s q.0 q.1) (
        send_loop-IsBalanced fresh remaining
          (record s { refills = q.0; recycled = (pop_last s.recycled).0 })
          (omega (arith, balance, ap length q.2, length-append (contents R s.refills) (block ∷ [])))
          (q.3 ∙ places) roomy)

  drained-IsBalanced :
      (s : Storage R) → IsBalanced s → IsBalanced (drain_loop R (available_items R s.returned) s)
  drained-IsBalanced s b = drain_loop-IsBalanced (available_items R s.returned) s b

  pub refill_loop_storage-IsBalanced :
      (fresh : B) (s : Storage R)
      → IsBalanced s
      → IsBalanced (refill_loop_storage R fresh s) × ((refill_loop_storage R fresh s).requests ≡ 0)
  unfolding refill_loop_storage
  refill_loop_storage-IsBalanced fresh s b =
      let d = drained-IsBalanced s b in
      let sent =
        send_loop-IsBalanced fresh (drain_loop R (available_items R s.returned) s).requests
          (record (drain_loop R (available_items R s.returned) s) { requests = 0 })
          (omega (arith, d.balance)) d.places d.roomy in
      (sent.0, sent.1)

  pub data Step : Type 0 where
    adds releases : List B → Step
    refills_pass : Step

  pub step : B → Storage R → Step → Storage R
  step fresh s (adds blocks) = (add_block R s blocks).0
  step fresh s (releases blocks) = (release_blocks R s blocks).0
  step fresh s refills_pass = refill_loop_storage R fresh s

  pub run : B → Storage R → List Step → Storage R
  run fresh s [] = s
  run fresh s (c ∷ cs) = run fresh (step fresh s c) cs

  step-IsBalanced :
      (fresh : B) (s : Storage R) (c : Step) → IsBalanced s → IsBalanced (step fresh s c)
  unfolding step
  step-IsBalanced fresh s (adds blocks) b = add_block-IsBalanced s blocks b
  step-IsBalanced fresh s (releases blocks) b = release_blocks-IsBalanced blocks s b
  step-IsBalanced fresh s refills_pass b = (refill_loop_storage-IsBalanced fresh s b).0

  run-IsBalanced :
      (fresh : B) (s : Storage R) (cs : List Step) → IsBalanced s → IsBalanced (run fresh s cs)
  unfolding run
  run-IsBalanced fresh s [] b = b
  run-IsBalanced fresh s (c ∷ cs) b =
      run-IsBalanced fresh (step fresh s c) cs (step-IsBalanced fresh s c b)

  pub refill_loop_storage-ready :
      (fresh : B) (s : Storage R)
      → IsBalanced s
      → length (collect_refills R (refill_loop_storage R fresh s)).free ≡ default_audio_blocks
  unfolding collect_refills
  refill_loop_storage-ready fresh s b =
      let served = refill_loop_storage-IsBalanced fresh s b in
      let t = refill_loop_storage R fresh s in
      let c = collect_loop-IsBalanced (t.capacity - length t.free) t served.0 in
      omega (arith, c.0.balance, c.1, c.2, served.1, served.0.balance, served.0.roomy)

  -- After any interleaving of block requests, releases and passes of the worker, one more pass and
  -- `collect_refills` make all 40 blocks ready again: no request is lost, whatever was recorded or
  -- erased, and whether or not the queue of returned blocks was full.
  pub run-ready :
      (fresh : B) (s : Storage R) (cs : List Step)
      → IsBalanced s
      → length (collect_refills R (refill_loop_storage R fresh (run fresh s cs))).free
        ≡ default_audio_blocks
  run-ready fresh s cs b =
      refill_loop_storage-ready fresh (run fresh s cs) (run-IsBalanced fresh s cs b)
