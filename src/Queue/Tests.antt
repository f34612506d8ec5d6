-- ===== src/Queue/Tests.antt =====
-- src/realtime_queue.rs: the theorem on a queue of two places, over a ring that is a list.
use freewheeling_plus.Prelude.{ℕ, ◌≡◌, refl, List, [], ◌∷◌, some}
use freewheeling_plus.Queue.{Queue, bounded}
use freewheeling_plus.Queue.Ring.{list_ring}
use freewheeling_plus.Queue.Calls.{contents, size}
use freewheeling_plus.Queue.Fifo.{
  History, reference, Call, sends, receives, play, no_history, IsConsistent, bounded-play,
}

-- The third value is given back, and the last `try_recv` finds nothing.
abbrev calls : List (Call ℕ)
calls = sends 10 ∷ sends 20 ∷ sends 30 ∷ receives ∷ receives ∷ receives ∷ []

abbrev two_places : Queue (list_ring ℕ)
two_places = record {
  ring = (list_ring ℕ).new 2;
  metrics = record { rejected = 0; received = 0; sent = 0 };
}

made : bounded (list_ring ℕ) 2 ≡ some two_places
unfolding bounded
made = refl

abbrev after_calls : Queue (list_ring ℕ) × History ℕ
after_calls = play (list_ring ℕ) two_places (no_history (list_ring ℕ)) calls

bounded-play_example :
    (after_calls.1 ≡ (reference (list_ring ℕ) 2 [] (no_history (list_ring ℕ)) calls).1)
    × (contents (list_ring ℕ) after_calls.0
        ≡ (reference (list_ring ℕ) 2 [] (no_history (list_ring ℕ)) calls).0)
    × (size (list_ring ℕ) after_calls.0 ≡ 2)
    × IsConsistent (list_ring ℕ) after_calls.0 after_calls.1
bounded-play_example = bounded-play (list_ring ℕ) 2 two_places calls made
