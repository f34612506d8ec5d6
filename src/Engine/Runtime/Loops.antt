-- ===== src/Engine/Runtime/Loops.antt =====
-- src/native_dsp_graph.rs: the arms of `apply_command` that work on the loops. `f32::max` and
-- `f32::clamp` are those of the type of floats.
use freewheeling_plus.Prelude.{
  ℕ, suc, ◌*◌, ◌/◌, max, min, Bool, true, false, not, ◌&&◌, ◌||◌, Option, none, some, List, [], ◌∷◌,
  map, ◌==◌, ltb, leb, if◌then◌else◌, get_elem?, set,
}
use freewheeling_plus.Prelude.Options.{◌>>=◌, keep_if}
use freewheeling_plus.Prelude.Floats.{Float32}
use freewheeling_plus.Engine.Command.{RuntimeCommand, empty, recording, overdubbing, playing, muted}
use freewheeling_plus.Engine.Transfer.{recording_storage_exhausted}
use freewheeling_plus.Engine.Blocks.{BlockPool}
use freewheeling_plus.Engine.Pulse.{PulseClock, pulse_synced_loop_position, extend_pulse_long_count}
use freewheeling_plus.Engine.Pulse.Commands.{set_pulse_from_loop, delete_pulse}
use freewheeling_plus.Engine.Loop.{LoopSlot, is_nil, uses_blocks}
use freewheeling_plus.Engine.Runtime.{
  Engine, Recorder, send_status, reject, put_loop, transfer_error,
}
use freewheeling_plus.Engine.Runtime.Recording.{
  reach, prefill_recording_from_history, stop_recording,
}

abbrev pub max_input_delivery_frames : ℕ
max_input_delivery_frames = 2400

-- `loops.get_mut(slot)`, where it has frames.
unfoldable pub filled : {F : Type 0} → List (LoopSlot F) → ℕ → Option (LoopSlot F)
filled loops slot = keep_if (λ s. ltb 0 s.len) (get_elem? loops slot)

unfoldable pub is_slot : Option ℕ → ℕ → Bool
is_slot none slot = false
is_slot (some index) slot = index == slot

-- The index of a loop after two were swapped.
unfoldable pub swapped : (source target : ℕ) → Option ℕ → Option ℕ
swapped source target r =
    if is_slot r source then some target else if is_slot r target then some source else r

-- A loop that is erased is not recorded any more.
unfoldable pub forget : ℕ → Recorder → Recorder
forget slot r = if is_slot r.recording slot then record r { recording = none } else r

-- Where a loop starts to play.
unfoldable pub start_position : {F : Type 0} → PulseClock → LoopSlot F → ℕ
start_position c s =
    if s.pulse_synced && c.pulse_sync_active
    then pulse_synced_loop_position c.pulse_frames c.pulse_position c.pulse_long_count s.pulse_beats
        s.len s.capture_alignment_frames
    else 0

-- The long count when a loop starts to play.
unfoldable pub count_in : {F : Type 0} → PulseClock → LoopSlot F → PulseClock
count_in c s = if s.pulse_synced then extend_pulse_long_count c (max s.pulse_beats 1) true else c

-- What `Record` resets in the recorder.
unfoldable pub started : Recorder → PulseClock → ℕ → Recorder
started r c index = record r {
  recording = some index;
  end_justify = false;
  pulse_beats = 0;
  pulse_extension_applied = false;
  started_late = false;
  start_phase = if c.pulse_sync_active then c.pulse_position else 0;
  elapsed_frames = 0;
  stop_target_len = none;
  skip_frames =
      if c.pulse_sync_active then 0 else min (r.alignment_frames / 2) max_input_delivery_frames;
}

module _ (f : Float32) (P : BlockPool f.F) where
  open f use {F, of_ℕ, add, mul, lt, max as fmax}
  open P use {Pool, add_block, release_blocks}

  unfoldable pub non_negative : F → F
  non_negative x = fmax x (of_ℕ 0)

  -- `clamp(0.0, 1.0)`.
  unfoldable pub clamp_one : F → F
  clamp_one x = if lt x (of_ℕ 0) then of_ℕ 0 else if lt (of_ℕ 1) x then of_ℕ 1 else x

  -- A loop without storage of its own gets a block; false where there is none.
  unfoldable pub first_block : Pool → LoopSlot F → Pool × LoopSlot F × Bool
  first_block p s =
      let released = if uses_blocks s then release_blocks p s.blocks else (p, s.blocks) in
      let added = add_block released.0 released.1 in
      if is_nil s.left
      then (added.0, record s { blocks = added.1 }, added.2)
      else (released.0, record s { blocks = released.1 }, true)

  unfoldable pub new_take : Recorder → PulseClock → LoopSlot F → LoopSlot F
  new_take r c s = record s {
    data_offset = 0;
    len = 0;
    position = 0;
    gain = of_ℕ 1;
    trigger_gain = of_ℕ 1;
    gain_delta = of_ℕ 1;
    pulse_synced = c.pulse_sync_active;
    pulse_beats = 0;
    capture_alignment_frames = if c.pulse_sync_active then r.alignment_frames else 0;
    boundary_fade_position = none;
    mode = recording;
  }

  -- In the second half of a pulse the recording waits for its end, in the first half it starts with
  -- the frames that were heard since the downbeat.
  unfoldable pub align_take : Engine P → ℕ → LoopSlot F → Option (Engine P)
  align_take e index s =
      if not e.clock.pulse_sync_active
      then some e
      else if leb e.clock.pulse_frames (e.clock.pulse_position * 2)
      then some
          (record e { recorder = record e.recorder { waiting_start = true; started_late = true } })
      else (do
        let reached = reach f P e.clock.pulse_position e.loop_storage s
        prefilled ← prefill_recording_from_history f P e.history reached.1 e.clock.pulse_position
        some (put_loop (record e { loop_storage = reached.0 }) index prefilled))

  unfoldable pub record_into : Engine P → ℕ → LoopSlot F → Option (Engine P)
  record_into e slot s =
      let ready = first_block e.loop_storage s in
      let target = new_take e.recorder e.clock ready.1 in
      if ready.2
      then align_take
          (put_loop
            (record e { loop_storage = ready.0; recorder = started e.recorder e.clock slot }) slot
            target)
          slot target
      else some (
          send_status (put_loop (record e { loop_storage = ready.0 }) slot ready.1) (
            transfer_error slot (record { index = 65535; generation = 0 })
              recording_storage_exhausted))

  unfoldable pub record_loop : Engine P → RuntimeCommand F → ℕ → Option (Engine P)
  record_loop e command slot = do
    stopped ← stop_recording f P e true
    elim (get_elem? stopped.loops slot) [
      | none ↦ some (reject stopped command)
      | some s ↦ record_into stopped slot s
    ]

  unfoldable pub overdub_stopped :
      Engine P → RuntimeCommand F → (slot : ℕ) (feedback gain : F) → Engine P
  overdub_stopped e command slot feedback gain = elim (filled e.loops slot) [
    | none ↦ reject e command
    | some s ↦
        record (put_loop e slot (record s {
          position = start_position e.clock s;
          feedback = clamp_one feedback;
          feedback_last = clamp_one feedback;
          trigger_gain = non_negative gain;
          overdub_fade_out = none;
          mode = overdubbing;
        })) { recorder = record e.recorder { recording = some slot }; clock = count_in e.clock s }
  ]

  unfoldable pub overdub :
      Engine P → RuntimeCommand F → (slot : ℕ) (feedback gain : F) → Option (Engine P)
  overdub e command slot feedback gain = do
    stopped ← stop_recording f P e true
    some (overdub_stopped stopped command slot feedback gain)

  unfoldable pub trigger : Engine P → RuntimeCommand F → (slot : ℕ) (gain : F) → Engine P
  trigger e command slot gain = elim (filled e.loops slot) [
    | none ↦ reject e command
    | some s ↦
        record (put_loop e slot (record s {
          position = start_position e.clock s;
          trigger_gain = non_negative gain;
          mode = playing;
        })) { clock = count_in e.clock s }
  ]

  -- The arms that change a loop with frames by `change` and reject the command for any other.
  unfoldable pub change_filled :
      Engine P → RuntimeCommand F → (slot : ℕ) → (LoopSlot F → LoopSlot F) → Engine P
  change_filled e command slot change = elim (filled e.loops slot) [
    | none ↦ reject e command
    | some s ↦ put_loop e slot (change s)
  ]

  unfoldable pub set_trigger_gain : F → LoopSlot F → LoopSlot F
  set_trigger_gain gain s = record s { trigger_gain = non_negative gain }

  unfoldable pub set_loop_gain : F → LoopSlot F → LoopSlot F
  set_loop_gain gain s = record s { gain = non_negative gain }

  unfoldable pub adjust_loop_gain : F → LoopSlot F → LoopSlot F
  adjust_loop_gain factor s = record s { gain = non_negative (mul s.gain factor) }

  unfoldable pub adjust_loop_gain_delta : F → LoopSlot F → LoopSlot F
  adjust_loop_gain_delta amount s = record s { gain_delta = non_negative (add s.gain_delta amount) }

  unfoldable pub mute : Bool → LoopSlot F → LoopSlot F
  mute silent s = record s {
    position = if silent then 0 else s.position;
    mode = if silent then muted else playing;
  }

  unfoldable pub reset_gain_delta : LoopSlot F → LoopSlot F
  reset_gain_delta s = record s { gain_delta = of_ℕ 1 }

  unfoldable pub reset_loop_gain_deltas : Engine P → Engine P
  reset_loop_gain_deltas e = record e { loops = map reset_gain_delta e.loops }

  unfoldable pub swap_loops : Engine P → (source target : ℕ) → (s t : LoopSlot F) → Engine P
  swap_loops e source target s t = record e {
    loops = set (set e.loops source t) target s;
    recorder = record e.recorder { recording = swapped source target e.recorder.recording };
  }

  unfoldable pub move_loop : Engine P → RuntimeCommand F → (source target : ℕ) → Engine P
  move_loop e command source target = elim (get_elem? e.loops source) [
    | none ↦ reject e command
    | some s ↦ elim (get_elem? e.loops target) [
      | none ↦ reject e command
      | some t ↦
          if source == target || s.len == 0 || not (t.len == 0)
          then reject e command
          else swap_loops e source target s t
    ]
  ]

  -- What `Erase` and `DeletePulse` reset.
  unfoldable pub cleared : LoopSlot F → LoopSlot F
  cleared s = record s {
    data_offset = 0;
    len = 0;
    position = 0;
    mode = empty;
    gain = of_ℕ 1;
    trigger_gain = of_ℕ 1;
    gain_delta = of_ℕ 1;
    pulse_synced = false;
    pulse_beats = 0;
    capture_alignment_frames = 0;
    boundary_fade_position = none;
  }

  unfoldable pub erase_slot : Pool → LoopSlot F → Pool × LoopSlot F
  erase_slot p s =
      let released = release_blocks p s.blocks in
      (released.0, cleared (record s { blocks = released.1 }))

  unfoldable pub erase : Engine P → RuntimeCommand F → ℕ → Engine P
  erase e command slot =
      let kept : Engine P = record e { recorder = forget slot e.recorder } in
      elim (get_elem? e.loops slot) [
        | none ↦ reject kept command
        | some s ↦
            let gone = erase_slot e.loop_storage s in
            put_loop (record kept { loop_storage = gone.0 }) slot gone.1
      ]

  -- The loop of `DeletePulse`, from `index` on.
  unfoldable pub erase_synced :
      (index : ℕ) → Pool → Recorder → List (LoopSlot F) → Pool × Recorder × List (LoopSlot F)
  erase_synced index p r [] = (p, r, [])
  erase_synced index p r (s ∷ ss) =
      let gone = if s.pulse_synced then erase_slot p s else (p, s) in
      let forgotten = if s.pulse_synced then forget index r else r in
      let rest = erase_synced (suc index) gone.0 forgotten ss in (rest.0, rest.1, gone.1 ∷ rest.2)

  unfoldable pub delete_pulse_loops : Engine P → Engine P
  delete_pulse_loops e =
      let gone = erase_synced 0 e.loop_storage e.recorder e.loops in
      record e {
        loop_storage = gone.0;
        recorder = gone.1;
        loops = gone.2;
        clock = delete_pulse e.clock;
      }

  unfoldable pub select_pulse : Engine P → RuntimeCommand F → ℕ → Engine P
  select_pulse e command slot =
      if e.clock.pulse_sync_active then e else elim (filled e.loops slot) [
        | none ↦ reject e command
        | some s ↦
            record (put_loop e slot (record s {
              pulse_synced = true;
              pulse_beats = max e.clock.pulse_subdivide 1;
              capture_alignment_frames = 0;
              boundary_fade_position = none;
            })) { clock = set_pulse_from_loop e.clock s.len s.position }
      ]
