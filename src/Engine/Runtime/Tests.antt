-- ===== src/Engine/Runtime/Tests.antt =====
-- src/native_dsp_graph.rs: the engine on small loops.
use freewheeling_plus.Prelude.{ℕ, ◌≡◌, ◌≢◌, refl, true, none, some, [], ◌∷◌, get_elem?, arith}
use freewheeling_plus.Prelude.Floats.{whole_floats}
use freewheeling_plus.Engine.Command.{RuntimeCommand, playing, recording}
use freewheeling_plus.Engine.Transfer.{slot}
use freewheeling_plus.Engine.Loop.{LoopSlot}
use freewheeling_plus.Engine.Runtime.{
  Engine, ExportJob, is_recording, is_overdubbing, loop_completed,
}
use freewheeling_plus.Engine.Runtime.Recording.{extend_storage, reach, stop_recording}
use freewheeling_plus.Engine.Runtime.Pcm.{
  is_queued, can_export, request_loop_export, advance_exports,
}
use freewheeling_plus.Engine.Runtime.Apply.{apply_command}
use freewheeling_plus.Engine.Runtime.Fuel.{reach-extend_storage}
use freewheeling_plus.Engine.Runtime.Safety.{IsServed}
use freewheeling_plus.Engine.Runtime.Ended.{IsPlayable, stop_recording-IsPlayable}
use freewheeling_plus.Engine.Runtime.Export.{IsExported}
use freewheeling_plus.Engine.Runtime.Exports.{request_loop_export-IsExported}
use freewheeling_plus.Engine.Runtime.Keep.{IsUntouched, is_busy}
use freewheeling_plus.Engine.Runtime.Protect.{escapes_guard, apply_command-IsUntouched}
use freewheeling_plus.Engine.Runtime.Examples.{
  four_blocks, three_frames, one_loop, first_handle, waiting_transfer, silent_pool, idle-IsEngine,
  recording-IsEngine, running_export, exporting, exporting-IsEngine,
}

reach-extend_storage_example :
    extend_storage whole_floats silent_pool 30000 20001 four_blocks (three_frames playing)
    ≡ reach whole_floats silent_pool 20001 four_blocks (three_frames playing)
reach-extend_storage_example =
    reach-extend_storage whole_floats silent_pool 30000 20001 four_blocks (three_frames playing)
      (omega arith)

stop_recording-IsPlayable_example :
    (t : Engine silent_pool) × (u : LoopSlot ℕ) × (stop_recording whole_floats silent_pool
        (one_loop recording (some 0))
        true
      ≡ some t)
    × (t.recorder.recording ≡ none)
    × (get_elem? t.loops 0 ≡ some u)
    × IsPlayable (three_frames recording) u
    × ((other : ℕ)
        → 0 ≢ other
        → get_elem? t.loops other ≡ get_elem? (three_frames recording ∷ []) other)
    × (t.sent ≡ loop_completed 0 ∷ [])
unfolding is_recording is_overdubbing
stop_recording-IsPlayable_example =
    stop_recording-IsPlayable whole_floats silent_pool (one_loop recording (some 0)) 0
      (three_frames recording) true recording-IsEngine refl refl

request_loop_export-IsExported_example :
    (job : ExportJob ℕ) × (u : Engine silent_pool) × (advance_exports 1
        (request_loop_export (one_loop playing none) 0 first_handle)
      ≡ some u)
    × (job.slot ≡ 0)
    × (job.handle ≡ first_handle)
    × (job.metadata.frames ≡ 3)
    × IsExported (one_loop playing none) job (three_frames playing) u
unfolding can_export is_recording is_overdubbing slot is_queued
request_loop_export-IsExported_example =
    request_loop_export-IsExported 0 (one_loop playing none) 0 first_handle (three_frames playing)
      waiting_transfer idle-IsEngine refl refl refl refl refl (omega arith) (omega arith)
      (omega arith)

apply_command-IsUntouched_example :
    (t : Engine silent_pool) × (u : LoopSlot ℕ) × (apply_command whole_floats silent_pool exporting
        (RuntimeCommand.mute 0 true)
      ≡ some t)
    × (get_elem? t.loops 0 ≡ some u)
    × IsUntouched (three_frames playing) u
unfolding IsServed is_busy is_recording is_overdubbing escapes_guard
apply_command-IsUntouched_example =
    apply_command-IsUntouched whole_floats silent_pool exporting (RuntimeCommand.mute 0 true)
      running_export (three_frames playing) exporting-IsEngine tt refl refl refl refl
