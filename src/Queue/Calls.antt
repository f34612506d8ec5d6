-- ===== src/Queue/Calls.antt =====
-- src/realtime_queue.rs: each call of an endpoint by what the ring holds.
use freewheeling_plus.Prelude.{
  ℕ, ◌≤◌, ◌<◌, ◌≡◌, refl, List, [], ◌∷◌, ◌++◌, none, some, length, ok, err,
}
use freewheeling_plus.Queue.{Queue, count_one, try_send, try_recv, pushed, popped}
use freewheeling_plus.Queue.Ring.{RingBuffer}

module _ {T : Type 0} (R : RingBuffer T) where
  abbrev pub contents : Queue R → List T
  contents q = R.items q.ring

  abbrev pub size : Queue R → ℕ
  size q = R.capacity q.ring

  pub try_send_room :
      (q : Queue R) (v : T)
      → length (contents q) < size q
      → (s : Queue R) × (try_send R q v ≡ (s, ok tt))
        × (contents s ≡ contents q ++ v ∷ [])
        × (size s ≡ size q)
        × (s.metrics ≡ record q.metrics { sent = count_one q.metrics.sent })
  unfolding try_send pushed
  try_send_room q v h =
      let p = R.push_room q.ring v h in
      (
        record { ring = p.0; metrics = record q.metrics { sent = count_one q.metrics.sent } },
        rw p.1 refl,
        p.2,
        p.3,
        refl,
      )

  pub try_send_full :
      (q : Queue R) (v : T)
      → size q ≤ length (contents q)
      → try_send R q v ≡ (
        record q { metrics = record q.metrics { rejected = count_one q.metrics.rejected } },
        err v,
      )
  unfolding try_send pushed
  try_send_full q v h = rw (R.push_full q.ring v h) refl

  pub try_recv_front :
      (q : Queue R) (x : T) (xs : List T)
      → contents q ≡ x ∷ xs
      → (s : Queue R) × (try_recv R q ≡ (s, some x))
        × (contents s ≡ xs)
        × (size s ≡ size q)
        × (s.metrics ≡ record q.metrics { received = count_one q.metrics.received })
  unfolding try_recv popped
  try_recv_front q x xs h =
      let p = R.pop_front q.ring x xs h in
      (
        record {
          ring = p.0;
          metrics = record q.metrics { received = count_one q.metrics.received };
        },
        rw p.1 refl,
        p.2,
        p.3,
        refl,
      )

  pub try_recv_empty : (q : Queue R) → contents q ≡ [] → try_recv R q ≡ (q, none)
  unfolding try_recv popped
  try_recv_empty q h = rw (R.pop_empty q.ring h) refl
