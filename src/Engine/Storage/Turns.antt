-- ===== src/Engine/Storage/Turns.antt =====
-- src/native_dsp_graph.rs: one turn of each loop over a queue of blocks, by what the queue gives.
use freewheeling_plus.Prelude.{ℕ, suc, ◌+◌, ◌≡◌, List, [], ◌∷◌, ◌++◌, none, some, ok, err}
use freewheeling_plus.Prelude.Options.{unwrap_or}
use freewheeling_plus.Queue.{Queue, try_send, try_recv}
use freewheeling_plus.Queue.Ring.{RingBuffer}
use freewheeling_plus.Engine.Storage.{
  Storage, pop_last, collect_loop, release_blocks, drain_loop, send_loop,
}

module _ {B : Type 0} (R : RingBuffer B) where
  pub collect_loop-none :
      (room : ℕ) (s : Storage R) (q : Queue R)
      → try_recv R s.refills ≡ (q, none)
      → collect_loop R (suc room) s ≡ record s { refills = q }
  unfolding collect_loop
  collect_loop-none room s q e = cc

  pub collect_loop-some :
      (room : ℕ) (s : Storage R) (q : Queue R) (x : B)
      → try_recv R s.refills ≡ (q, some x)
      → collect_loop R (suc room) s
        ≡ collect_loop R room (record s { refills = q; free = s.free ++ x ∷ [] })
  unfolding collect_loop
  collect_loop-some room s q x e = cc

  pub release_blocks-ok :
      (s : Storage R) (x : B) (xs : List B)
      → (try_send R s.returned x).1 ≡ ok tt
      → release_blocks R s (x ∷ xs)
        ≡ release_blocks R (record s { returned = (try_send R s.returned x).0 }) xs
  unfolding release_blocks
  release_blocks-ok s x xs e = cc

  pub release_blocks-err :
      (s : Storage R) (x y : B) (xs : List B)
      → (try_send R s.returned x).1 ≡ err y
      → release_blocks R s (x ∷ xs)
        ≡ (record s { returned = (try_send R s.returned x).0 }, xs ++ y ∷ [])
  unfolding release_blocks
  release_blocks-err s x y xs e = cc

  pub drain_loop-none :
      (n : ℕ) (s : Storage R)
      → (try_recv R s.returned).1 ≡ none
      → drain_loop R (suc n) s ≡ record s { returned = (try_recv R s.returned).0 }
  unfolding drain_loop
  drain_loop-none n s e = cc

  pub drain_loop-some :
      (n : ℕ) (s : Storage R) (x : B)
      → (try_recv R s.returned).1 ≡ some x
      → drain_loop R (suc n) s
        ≡ drain_loop R n
            (record s { returned = (try_recv R s.returned).0; recycled = s.recycled ++ x ∷ [] })
  unfolding drain_loop
  drain_loop-some n s x e = cc

  pub send_loop-ok :
      (fresh : B) (remaining : ℕ) (s : Storage R) (q : Queue R)
      → try_send R s.refills (unwrap_or (pop_last s.recycled).1 fresh) ≡ (q, ok tt)
      → send_loop R fresh (suc remaining) s
        ≡ send_loop R fresh remaining (record s { refills = q; recycled = (pop_last s.recycled).0 })
  unfolding send_loop
  send_loop-ok fresh remaining s q e = cc

  pub send_loop-err :
      (fresh : B) (remaining : ℕ) (s : Storage R) (q : Queue R) (full : B)
      → try_send R s.refills (unwrap_or (pop_last s.recycled).1 fresh) ≡ (q, err full)
      → send_loop R fresh (suc remaining) s ≡ record s {
        refills = q;
        recycled = (pop_last s.recycled).0 ++ full ∷ [];
        requests = s.requests + (remaining + 1);
      }
  unfolding send_loop
  send_loop-err fresh remaining s q full e = cc
