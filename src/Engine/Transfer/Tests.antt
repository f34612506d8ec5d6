-- ===== src/Engine/Transfer/Tests.antt =====
-- src/native_dsp_graph.rs: the theorems on transfer slots, for a pool of two slots of two frames, over
-- a ring that is a list. Samples are numbers.
use freewheeling_plus.Prelude.{
  ℕ, ◌≡◌, ◌==◌, refl, true, none, some, [], ◌∷◌, take, if◌then◌else◌, ok, err, arith,
}
use freewheeling_plus.Queue.Ring.{list_ring}
use freewheeling_plus.Engine.Command.{PcmTransferHandle, RuntimeCommand}
use freewheeling_plus.Engine.Transfer.{
  TransferSlot, TransferPool, Endpoint, slot, acquire, acquire_from, next_generation, handle_of,
  is_free, is_control, is_exported, owned, put, write_transfer, write_slot, overwrite,
  with_exported_pcm, release_transfer, grow, invalid_handle, free, control,
}
use freewheeling_plus.Engine.Transfer.Handles.{
  acquire-slot, acquire-stale, release_transfer-refused, write_transfer-samples,
}
use freewheeling_plus.Engine.Transfer.Safety.{exports, step, step-IsSafe}
use freewheeling_plus.Engine.Transfer.Valid.{IsValid, IsSlot}

abbrev idle : ℕ → TransferSlot ℕ
idle generation = record {
  state = free;
  generation = generation;
  pcm = record { left = 0 ∷ 0 ∷ []; right = 0 ∷ 0 ∷ []; len = 0 };
}

abbrev pool : TransferPool ℕ
pool = record { slots = idle 5 ∷ idle 0 ∷ []; capacity = 2 }

abbrev held : TransferPool ℕ
held = record { slots = record (idle 6) { state = control } ∷ idle 0 ∷ []; capacity = 2 }

abbrev first : PcmTransferHandle
first = record { index = 0; generation = 6 }

abbrev earlier : PcmTransferHandle
earlier = record { index = 0; generation = 5 }

acquired : acquire pool ≡ ok (held, first)
unfolding acquire acquire_from next_generation handle_of is_free
acquired = refl

earlier_found : slot pool earlier ≡ some (idle 5)
unfolding slot
earlier_found = refl

acquire-slot_example :
    (t : TransferSlot ℕ) × (is_control t.state ≡ true)
    × (slot held first ≡ (if 0 == 0 then if 6 == 6 then some t else none else slot pool first))
acquire-slot_example = acquire-slot pool held first first (omega arith) acquired

acquire-stale_example : slot held earlier ≡ none
acquire-stale_example =
    acquire-stale pool held first earlier (idle 5) (omega arith) acquired earlier_found refl

abbrev released : TransferPool ℕ
released = record { slots = idle 6 ∷ idle 0 ∷ []; capacity = 2 }

is_released : release_transfer 0 held first ≡ ok released
unfolding release_transfer slot owned is_control is_exported put grow
is_released = refl

release_transfer-refused_example :
    (with_exported_pcm released first ≡ some (err invalid_handle))
    × (write_transfer released first (7 ∷ []) (8 ∷ []) ≡ some (err invalid_handle))
    × (release_transfer 0 released first ≡ err invalid_handle)
release_transfer-refused_example =
    release_transfer-refused 0 held released first (7 ∷ []) (8 ∷ []) is_released refl

abbrev written : TransferPool ℕ
written = record {
  slots =
      record (idle 6) {
        state = control;
        pcm = record { left = 7 ∷ 0 ∷ []; right = 8 ∷ 0 ∷ []; len = 1 };
      }
      ∷ idle 0
      ∷ [];
  capacity = 2;
}

is_written : write_transfer held first (7 ∷ []) (8 ∷ []) ≡ some (ok written)
unfolding write_transfer write_slot slot is_control put overwrite
is_written = refl

write_transfer-samples_example :
    (t : TransferSlot ℕ) × (slot written first ≡ some t)
    × (is_control t.state ≡ true)
    × (take t.pcm.len t.pcm.left ≡ 7 ∷ [])
    × (take t.pcm.len t.pcm.right ≡ 8 ∷ [])
write_transfer-samples_example =
    write_transfer-samples held written first (7 ∷ []) (8 ∷ []) is_written

idle-IsSlot : (generation : ℕ) → IsSlot 2 (idle generation)
idle-IsSlot generation = record { fits = omega arith; level = refl; ready = λ _. omega arith }

pool-IsValid : IsValid pool
pool-IsValid = record { few = omega arith; slots_valid = (idle-IsSlot 5, (idle-IsSlot 0, tt)) }

-- A queue of commands with a single place.
abbrev endpoint : Endpoint (list_ring (RuntimeCommand ℕ))
endpoint = record {
  transfers = pool;
  commands = record {
    ring = (list_ring (RuntimeCommand ℕ)).new 1;
    metrics = record { rejected = 0; received = 0; sent = 0 };
  };
}

step-IsSafe_example :
    (next : Endpoint (list_ring (RuntimeCommand ℕ))) × (step
        (list_ring (RuntimeCommand ℕ))
        endpoint
        (exports 3)
      ≡ some next)
    × IsValid next.transfers
step-IsSafe_example = step-IsSafe (list_ring (RuntimeCommand ℕ)) endpoint (exports 3) pool-IsValid
