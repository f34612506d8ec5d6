-- ===== src/Engine/Storage/Tests.antt =====
-- src/native_dsp_graph.rs: the theorem on the pool's blocks, from a new pool over a ring that is a
-- list.
use freewheeling_plus.Prelude.{ℕ, ◌≡◌, ap, List, [], ◌∷◌, length, arith}
use freewheeling_plus.Queue.{Queue}
use freewheeling_plus.Queue.Ring.{list_ring}
use freewheeling_plus.Engine.Storage.{
  Storage, new, collect_refills, refill_loop_storage, default_audio_blocks,
}
use freewheeling_plus.Engine.Storage.Balance.{
  IsBalanced, Step, adds, releases, refills_pass, run, run-ready,
}

abbrev empty_queue : ℕ → Queue (list_ring ℕ)
empty_queue capacity = record {
  ring = (list_ring ℕ).new capacity;
  metrics = record { rejected = 0; received = 0; sent = 0 };
}

abbrev pool : Storage (list_ring ℕ)
unfolding new
pool = new (list_ring ℕ) 0 (empty_queue 40) (empty_queue 320)

abbrev steps : List (Step (list_ring ℕ))
steps = adds [] ∷ adds (0 ∷ []) ∷ refills_pass ∷ releases (0 ∷ 0 ∷ []) ∷ []

pool-IsBalanced : IsBalanced (list_ring ℕ) pool
unfolding new
pool-IsBalanced = record {
  balance = omega (arith, ap length ((list_ring ℕ).items-new 40));
  places = (list_ring ℕ).capacity-new 40;
  roomy = omega arith;
}

run-ready_example :
    length
      (collect_refills
        (list_ring ℕ)
        (refill_loop_storage (list_ring ℕ) 0 (run (list_ring ℕ) 0 pool steps))).free
    ≡ default_audio_blocks
run-ready_example = run-ready (list_ring ℕ) 0 pool steps pool-IsBalanced
