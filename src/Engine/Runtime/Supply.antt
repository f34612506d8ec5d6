-- ===== src/Engine/Runtime/Supply.antt =====
-- src/native_dsp_graph.rs: the blocks of the storage pool across the commands of the callback.
use freewheeling_plus.Prelude.{◌≡◌, some}
use freewheeling_plus.Prelude.Floats.{Float32}
use freewheeling_plus.Queue.Ring.{RingBuffer}
use freewheeling_plus.Engine.Command.{RuntimeCommand}
use freewheeling_plus.Engine.Transfer.{StereoTransfer}
use freewheeling_plus.Engine.Storage.{refill_loop_storage}
use freewheeling_plus.Engine.Storage.Pool.{storage_pool}
use freewheeling_plus.Engine.Runtime.{Engine}
use freewheeling_plus.Engine.Runtime.Apply.{apply_command}
use freewheeling_plus.Engine.Runtime.Safety.{IsServed}

module _ (f : Float32) (R : RingBuffer (StereoTransfer f.F)) (fresh : StereoTransfer f.F) where
  -- The engine after a pass of the worker.
  unfoldable pub pass : Engine (storage_pool R) → Engine (storage_pool R)
  pass e = record e { loop_storage = refill_loop_storage R fresh e.loop_storage }

  -- The engines that commands of the callback and passes of the worker lead to, in any order; the
  -- engine serves each command when it comes.
  pub data Reaches : Engine (storage_pool R) → Engine (storage_pool R) → Type 0 where
    here : (e : Engine (storage_pool R)) → Reaches e e
    by_command :
        (e t u : Engine (storage_pool R)) (c : RuntimeCommand f.F)
        → Reaches e t
        → IsServed t c
        → apply_command f (storage_pool R) t c ≡ some u
        → Reaches e u
    by_pass : (e t : Engine (storage_pool R)) → Reaches e t → Reaches e (pass t)
