-- ===== src/Engine/Storage/Pool.antt =====
-- src/native_dsp_graph.rs: `LoopStoragePool` as the pool of blocks that the loops rely on.
use freewheeling_plus.Prelude.{
  ℕ, zero, suc, ◌+◌, ◌-◌, ◌≤◌, ◌<◌, ◌≡◌, refl, ap, ◌∙◌, Bool, true, some, List, [], ◌∷◌, ◌++◌,
  length, length-append, All, All-append, if◌then◌else◌, arith, inl, inr, List-cases, dec_lt, subst,
  sym,
}
use freewheeling_plus.Queue.{try_send}
use freewheeling_plus.Queue.Ring.{RingBuffer}
use freewheeling_plus.Queue.Calls.{
  contents, size, try_send_room, try_send_full, try_recv_front, try_recv_empty,
}
use freewheeling_plus.Engine.Transfer.{StereoTransfer}
use freewheeling_plus.Engine.Blocks.{BlockPool, IsBlock}
use freewheeling_plus.Engine.Storage.{
  Storage, pop_last, collect_loop, collect_refills, take_block, add_block, release_blocks,
}
use freewheeling_plus.Engine.Storage.Balance.{
  IsBalanced, add_block-IsBalanced, release_blocks-IsBalanced,
}
use freewheeling_plus.Engine.Storage.Turns.{
  collect_loop-none, collect_loop-some, release_blocks-ok, release_blocks-err,
}

pub pop_last-All {ℓ κ} :
    {A : Type ℓ} (P : A → Type κ) (x : A) (xs : List A)
    → (y : A) × (ys : List A) × (pop_last (x ∷ xs) ≡ (ys, some y))
      × (length ys ≡ length xs)
      × (All P (x ∷ xs) → All P ys × P y)
unfolding pop_last
pop_last-All P x [] = (x, [], refl, refl, λ a. (tt, a.0))
pop_last-All P x (z ∷ zs) =
    let p = pop_last-All P z zs in
    (p.0, x ∷ p.1, rw p.2 refl, ap suc p.3, λ a. let q = p.4 a.1 in ((a.0, q.0), q.1))

module _ {F : Type 0} (R : RingBuffer (StereoTransfer F)) where
  -- All blocks have the length of a block: those that are ready, those on their way, and those that
  -- the worker has back.
  pub record IsStocked (s : Storage R) : Type 0 where
    pub free : All IsBlock s.free
    pub refills : All IsBlock (contents R s.refills)
    pub returned : All IsBlock (contents R s.returned)
    pub recycled : All IsBlock s.recycled

  abbrev pub room : Storage R → ℕ
  room s = size R s.returned - length (contents R s.returned)

  -- What a pass over the refills leaves.
  record IsCollected (s t : Storage R) : Type 0 where
    stocked : IsStocked s → IsStocked t
    grown : length s.free ≤ length t.free
    same : t.returned ≡ s.returned

  collect_loop-IsCollected : (n : ℕ) (s : Storage R) → IsCollected s (collect_loop R n s)
  unfolding collect_loop
  collect_loop-IsCollected zero s = record { stocked = λ v. v; grown = omega arith; same = refl }
  collect_loop-IsCollected (suc n) s = elim (List-cases (contents R s.refills)) [
    | inl empty ↦
        rw (collect_loop-none R n s s.refills (try_recv_empty R s.refills empty))
          (record { stocked = λ v. v; grown = omega arith; same = refl })
    | inr front ↦
        let q = try_recv_front R s.refills front.0 front.1 front.2 in
        let next : Storage R = record s { refills = q.0; free = s.free ++ front.0 ∷ [] } in
        let rest = collect_loop-IsCollected n next in
        rw (collect_loop-some R n s q.0 front.0 q.1) (record {
          stocked = λ v.
              let held = subst (All IsBlock) front.2 v.refills in
              rest.stocked (record {
                free = All-append IsBlock s.free (front.0 ∷ []) v.free (held.0, tt);
                refills = subst (All IsBlock) (sym q.2) held.1;
                returned = v.returned;
                recycled = v.recycled;
              });
          grown = omega (arith, rest.grown, length-append s.free (front.0 ∷ []));
          same = rest.same;
        })
  ]

  collect_refills-IsCollected : (s : Storage R) → IsCollected s (collect_refills R s)
  unfolding collect_refills
  collect_refills-IsCollected s = collect_loop-IsCollected (s.capacity - length s.free) s

  -- What a request for a block leaves.
  pub record IsTaken (s : Storage R) (bs : List (StereoTransfer F))
      (r : Storage R × List (StereoTransfer F) × Bool) : Type 0 where
    stocked : IsStocked s → IsStocked r.0
    blocks : IsStocked s → All IsBlock bs → All IsBlock r.1
    count : length r.1 ≡ (if r.2 then length bs + 1 else length bs)
    ready : 0 < length s.free → r.2 ≡ true
    left : length s.free ≤ length r.0.free + 1
    same : r.0.returned ≡ s.returned

  take_block-IsTaken :
      (s : Storage R) (bs : List (StereoTransfer F))
      → IsTaken s bs (take_block R s bs (pop_last s.free))
  unfolding take_block pop_last
  take_block-IsTaken s bs = elim (List-cases s.free) [
    | inl empty ↦ rw (ap pop_last empty) (record {
      stocked = λ v. record {
        free = tt;
        refills = v.refills;
        returned = v.returned;
        recycled = v.recycled;
      };
      blocks = λ v w. w;
      count = refl;
      ready = λ h. absurd (omega (arith, h, ap length empty));
      left = omega (arith, ap length empty);
      same = refl;
    })
    | inr front ↦
        let p = pop_last-All IsBlock front.0 front.1 in
        rw (ap pop_last front.2 ∙ p.2) (record {
          stocked = λ v. record {
            free = (p.4 (subst (All IsBlock) front.2 v.free)).0;
            refills = v.refills;
            returned = v.returned;
            recycled = v.recycled;
          };
          blocks = λ v w.
              All-append IsBlock bs (p.0 ∷ []) w ((p.4 (subst (All IsBlock) front.2 v.free)).1, tt);
          count = length-append bs (p.0 ∷ []);
          ready = λ h. refl;
          left = omega (arith, ap length front.2, p.3);
          same = refl;
        })
  ]

  pub add_block-IsTaken :
      (s : Storage R) (bs : List (StereoTransfer F)) → IsTaken s bs (add_block R s bs)
  unfolding add_block
  add_block-IsTaken s bs =
      let c = collect_refills-IsCollected s in
      let t = take_block-IsTaken (collect_refills R s) bs in
      record {
        stocked = λ v. t.stocked (c.stocked v);
        blocks = λ v. t.blocks (c.stocked v);
        count = t.count;
        ready = λ h. t.ready (omega (arith, h, c.grown));
        left = omega (arith, c.grown, t.left);
        same = t.same ∙ c.same;
      }

  -- What a release leaves: the blocks of the callback are untouched, and with room for all the
  -- blocks none stays behind.
  pub record IsReleased (s : Storage R) (bs : List (StereoTransfer F))
      (r : Storage R × List (StereoTransfer F)) : Type 0 where
    free : r.0.free ≡ s.free
    refills : r.0.refills ≡ s.refills
    blocks : All IsBlock bs → All IsBlock r.1
    returned :
        All IsBlock bs → All IsBlock (contents R s.returned) → All IsBlock (contents R r.0.returned)
    recycled : r.0.recycled ≡ s.recycled
    emptied : length bs ≤ room s → r.1 ≡ []

  pub release_blocks-IsReleased :
      (s : Storage R) (bs : List (StereoTransfer F)) → IsReleased s bs (release_blocks R s bs)
  unfolding release_blocks
  release_blocks-IsReleased s [] = record {
    free = refl;
    refills = refl;
    blocks = λ w. w;
    returned = λ w u. u;
    recycled = refl;
    emptied = λ h. refl;
  }
  release_blocks-IsReleased s (b ∷ bs) =
      elim (dec_lt (length (contents R s.returned)) (size R s.returned)) [
        | yes place ↦
            let q = try_send_room R s.returned b place in
            let next : Storage R = record s { returned = (try_send R s.returned b).0 } in
            let rest = release_blocks-IsReleased next bs in
            rw (release_blocks-ok R s b bs (ap (λ r. r.1) q.1)) (record {
              free = rest.free;
              refills = rest.refills;
              blocks = λ w. rest.blocks w.1;
              returned = λ w u.
                  let held : contents R (try_send R s.returned b).0
                      ≡ contents R s.returned ++ b ∷ [] =
                    ap (λ r. contents R r.0) q.1 ∙ q.2 in
                  rest.returned w.1 (
                    subst (All IsBlock) (sym held)
                      (All-append IsBlock (contents R s.returned) (b ∷ []) u (w.0, tt)));
              recycled = rest.recycled;
              emptied = λ h. rest.emptied (
                  omega (
                    arith,
                    h,
                    place,
                    q.3,
                    ap length q.2,
                    length-append (contents R s.returned) (b ∷ []),
                    ap (λ r. length (contents R r.0)) q.1,
                    ap (λ r. size R r.0) q.1,
                  ));
            })
        | no full ↦
            let refused = try_send_full R s.returned b (omega (arith, full)) in
            rw (release_blocks-err R s b b bs (ap (λ r. r.1) refused)) (record {
              free = refl;
              refills = refl;
              blocks = λ w. All-append IsBlock bs (b ∷ []) w.1 (w.0, tt);
              returned = λ w u. subst (All IsBlock) (sym (ap (λ r. contents R r.0) refused)) u;
              recycled = refl;
              emptied = λ h. absurd (omega (arith, h, full));
            })
      ]

  pub released-IsStocked :
      (s : Storage R) (bs : List (StereoTransfer F))
      → All IsBlock bs
      → IsStocked s
      → IsStocked (release_blocks R s bs).0
  released-IsStocked s bs w v =
      let r = release_blocks-IsReleased s bs in
      record {
        free = subst (All IsBlock) (sym r.free) v.free;
        refills = subst (λ q. All IsBlock (contents R q)) (sym r.refills) v.refills;
        returned = r.returned w v.returned;
        recycled = subst (All IsBlock) (sym r.recycled) v.recycled;
      }

  -- `ready` are the blocks in `free`, and `room` are the places left in the queue `returned`.
  abbrev pub storage_pool : BlockPool F
  storage_pool = record {
    Pool = Storage R;
    IsPool = λ s. IsStocked s × IsBalanced R s;
    ready = λ s. length s.free;
    room = room;
    add_block = add_block R;
    release_blocks = release_blocks R;
    add_block-IsPool =
        λ s bs v. ((add_block-IsTaken s bs).stocked v.0, add_block-IsBalanced R s bs v.1);
    add_block-IsBlock = λ s bs v w. (add_block-IsTaken s bs).blocks v.0 w;
    length-add_block = λ s bs. (add_block-IsTaken s bs).count;
    add_block_ready = λ s bs h. (add_block-IsTaken s bs).ready h;
    ready-add_block = λ s bs. (add_block-IsTaken s bs).left;
    room-add_block =
        λ s bs. ap (λ q. size R q - length (contents R q)) (add_block-IsTaken s bs).same;
    release_blocks-IsPool =
        λ s bs v w. (released-IsStocked s bs w v.0, release_blocks-IsBalanced R bs s v.1);
    release_blocks-IsBlock = λ s bs w. (release_blocks-IsReleased s bs).blocks w;
    ready-release_blocks = λ s bs. ap length (release_blocks-IsReleased s bs).free;
    release_blocks_room = λ s bs h. (release_blocks-IsReleased s bs).emptied h;
  }
