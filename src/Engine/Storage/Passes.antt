-- ===== src/Engine/Storage/Passes.antt =====
-- src/native_dsp_graph.rs: a pass of the worker keeps blocks of the fixed length.
use freewheeling_plus.Prelude.{
  ℕ, zero, suc, ◌≡◌, ap, ◌∙◌, sym, subst, List, [], ◌∷◌, ◌++◌, length, All, All-append, arith, inl,
  inr, List-cases, dec_lt, Option,
}
use freewheeling_plus.Prelude.Options.{unwrap_or}
use freewheeling_plus.Queue.{try_recv, available_items}
use freewheeling_plus.Queue.Ring.{RingBuffer}
use freewheeling_plus.Queue.Calls.{
  contents, size, try_send_room, try_send_full, try_recv_front, try_recv_empty,
}
use freewheeling_plus.Engine.Transfer.{StereoTransfer}
use freewheeling_plus.Engine.Blocks.{IsBlock}
use freewheeling_plus.Engine.Storage.{Storage, pop_last, drain_loop, send_loop, refill_loop_storage}
use freewheeling_plus.Engine.Storage.Turns.{
  drain_loop-none, drain_loop-some, send_loop-ok, send_loop-err,
}
use freewheeling_plus.Engine.Storage.Pool.{IsStocked, pop_last-All}

-- The block that the worker sends, and what it keeps.
picked :
    {F : Type 0} (fresh : StereoTransfer F) (recycled : List (StereoTransfer F))
    → IsBlock fresh
    → All IsBlock recycled
    → All IsBlock (pop_last recycled).0 × IsBlock (unwrap_or (pop_last recycled).1 fresh)
unfolding pop_last
picked fresh [] w v = (tt, w)
picked {F} fresh (x ∷ xs) w v =
    let p = pop_last-All IsBlock x xs in
    subst
      (λ (r : List (StereoTransfer F) × Option (StereoTransfer F)).
        All IsBlock r.0 × IsBlock (unwrap_or r.1 fresh))
      (sym p.2) (p.4 v)

module _ {F : Type 0} (R : RingBuffer (StereoTransfer F)) where
  drain_loop-IsStocked : (n : ℕ) (s : Storage R) → IsStocked R s → IsStocked R (drain_loop R n s)
  unfolding drain_loop
  drain_loop-IsStocked zero s v = v
  drain_loop-IsStocked (suc n) s v = elim (List-cases (contents R s.returned)) [
    | inl empty ↦
        let r = try_recv_empty R s.returned empty in
        rw (drain_loop-none R n s (ap (λ q. q.1) r)) (record {
          free = v.free;
          refills = v.refills;
          returned = subst (All IsBlock) (sym (ap (λ q. contents R q.0) r)) v.returned;
          recycled = v.recycled;
        })
    | inr front ↦
        let q = try_recv_front R s.returned front.0 front.1 front.2 in
        let held = subst (All IsBlock) front.2 v.returned in
        let rest : contents R (try_recv R s.returned).0 ≡ front.1 =
          ap (λ r. contents R r.0) q.1 ∙ q.2 in
        rw (drain_loop-some R n s front.0 (ap (λ r. r.1) q.1)) (
          drain_loop-IsStocked n
            (record s {
              returned = (try_recv R s.returned).0;
              recycled = s.recycled ++ front.0 ∷ [];
            })
            (record {
              free = v.free;
              refills = v.refills;
              returned = subst (All IsBlock) (sym rest) held.1;
              recycled = All-append IsBlock s.recycled (front.0 ∷ []) v.recycled (held.0, tt);
            }))
  ]

  send_loop-IsStocked :
      (fresh : StereoTransfer F) (requested : ℕ) (s : Storage R)
      → IsBlock fresh
      → IsStocked R s
      → IsStocked R (send_loop R fresh requested s)
  unfolding send_loop
  send_loop-IsStocked fresh zero s w v = v
  send_loop-IsStocked fresh (suc remaining) s w v =
      let block = unwrap_or (pop_last s.recycled).1 fresh in
      let p = picked fresh s.recycled w v.recycled in
      elim (dec_lt (length (contents R s.refills)) (size R s.refills)) [
        | yes place ↦
            let q = try_send_room R s.refills block place in
            rw (send_loop-ok R fresh remaining s q.0 q.1) (
              send_loop-IsStocked fresh remaining
                (record s { refills = q.0; recycled = (pop_last s.recycled).0 }) w
                (record {
                  free = v.free;
                  refills =
                      subst (All IsBlock) (sym q.2) (
                        All-append IsBlock (contents R s.refills) (block ∷ []) v.refills (p.1, tt));
                  returned = v.returned;
                  recycled = p.0;
                }))
        | no full ↦
            let q = try_send_full R s.refills block (omega (arith, full)) in
            rw (send_loop-err R fresh remaining s _ block q) (record {
              free = v.free;
              refills = v.refills;
              returned = v.returned;
              recycled = All-append IsBlock (pop_last s.recycled).0 (block ∷ []) p.0 (p.1, tt);
            })
      ]

  pub refill_loop_storage-IsStocked :
      (fresh : StereoTransfer F) (s : Storage R)
      → IsBlock fresh
      → IsStocked R s
      → IsStocked R (refill_loop_storage R fresh s)
  unfolding refill_loop_storage
  refill_loop_storage-IsStocked fresh s w v =
      let drained = drain_loop R (available_items R s.returned) s in
      let d = drain_loop-IsStocked (available_items R s.returned) s v in
      send_loop-IsStocked fresh drained.requests (record drained { requests = 0 }) w
        (record {
          free = d.free;
          refills = d.refills;
          returned = d.returned;
          recycled = d.recycled;
        })
