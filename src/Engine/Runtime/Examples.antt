-- ===== src/Engine/Runtime/Examples.antt =====
-- src/native_dsp_graph.rs: small engines, with a storage of silent blocks.
use freewheeling_plus.Prelude.{
  ℕ, ◌≡◌, refl, ap, length, sym, subst, true, false, Option, none, some, [], ◌∷◌, length-replicate,
  replicate, All, arith,
}
use freewheeling_plus.Prelude.Int.{pos}
use freewheeling_plus.Queue.{Queue}
use freewheeling_plus.Queue.Ring.{list_ring}
use freewheeling_plus.Engine.Storage.{Storage, default_audio_blocks}
use freewheeling_plus.Engine.Storage.Balance.{IsBalanced}
use freewheeling_plus.Engine.Storage.Pool.{IsStocked, storage_pool}
use freewheeling_plus.Engine.Command.{PcmTransferHandle, LoopMode, playing, recording}
use freewheeling_plus.Engine.Blocks.{BlockPool, IsBlock, audio_block_frames}
use freewheeling_plus.Engine.Transfer.{StereoTransfer, TransferSlot, queued}
use freewheeling_plus.Engine.Pulse.{PulseClock, ClockRun}
use freewheeling_plus.Engine.Loop.{LoopSlot, stored, capacity, uses_blocks, is_nil}
use freewheeling_plus.Engine.Runtime.{Engine, ExportJob, Recorder}
use freewheeling_plus.Engine.Runtime.Valid.{IsLoop, IsEngine, IsTransfer}

pub silent_block : StereoTransfer ℕ
silent_block = record {
  left = replicate audio_block_frames 0;
  right = replicate audio_block_frames 0;
  len = audio_block_frames;
}

pub silent_block-IsBlock : IsBlock silent_block
unfolding silent_block
silent_block-IsBlock = record {
  left_frames = length-replicate {A = ℕ} audio_block_frames 0;
  right_frames = length-replicate {A = ℕ} audio_block_frames 0;
}

abbrev pub silent_pool : BlockPool ℕ
silent_pool = storage_pool (list_ring (StereoTransfer ℕ))

abbrev empty_queue : ℕ → Queue (list_ring (StereoTransfer ℕ))
empty_queue capacity = record {
  ring = (list_ring (StereoTransfer ℕ)).new capacity;
  metrics = record { rejected = 0; received = 0; sent = 0 };
}

-- Four blocks are free and none is on its way.
abbrev pub four_blocks : Storage (list_ring (StereoTransfer ℕ))
four_blocks = record {
  free = replicate 4 silent_block;
  capacity = default_audio_blocks;
  refills = empty_queue 40;
  returned = empty_queue 320;
  requests = 36;
  recycled = [];
}

four_blocks-IsStocked : IsStocked (list_ring (StereoTransfer ℕ)) four_blocks
four_blocks-IsStocked =
    let b = silent_block-IsBlock in
    record {
      free = (b, (b, (b, (b, tt))));
      refills = subst (All IsBlock) (sym ((list_ring (StereoTransfer ℕ)).items-new 40)) tt;
      returned = subst (All IsBlock) (sym ((list_ring (StereoTransfer ℕ)).items-new 320)) tt;
      recycled = tt;
    }

four_blocks-IsBalanced : IsBalanced (list_ring (StereoTransfer ℕ)) four_blocks
four_blocks-IsBalanced = record {
  balance = omega (arith, ap length ((list_ring (StereoTransfer ℕ)).items-new 40));
  places = (list_ring (StereoTransfer ℕ)).capacity-new 40;
  roomy = omega arith;
}

-- A loop of three frames in a buffer of four.
abbrev pub three_frames : LoopMode → LoopSlot ℕ
three_frames mode = record {
  left = 1 ∷ 2 ∷ 3 ∷ 4 ∷ [];
  right = 5 ∷ 6 ∷ 7 ∷ 8 ∷ [];
  blocks = [];
  data_offset = 0;
  len = 3;
  position = 1;
  mode = mode;
  gain = 1;
  trigger_gain = 1;
  gain_delta = 1;
  feedback = 0;
  feedback_last = 0;
  pulse_synced = false;
  pulse_beats = 0;
  capture_alignment_frames = 0;
  boundary_fade_position = none;
  overdub_fade_out = none;
  recorded_frames = 3;
}

pub three_frames-IsLoop : (mode : LoopMode) → IsLoop (three_frames mode)
unfolding capacity stored uses_blocks is_nil
three_frames-IsLoop mode = record {
  roomy = record {
    formed = record { blocks_formed = tt; channels = refl };
    offset_fits = omega arith;
    fits = omega arith;
    short = omega arith;
  };
  placed = λ h. omega arith;
}

abbrev pub still_clock : PulseClock
still_clock = record {
  sample_clock = 0;
  pulse_frames = 24000;
  pulse_position = 0;
  pulse_long_count = 0;
  pulse_long_length = 1;
  pulse_subdivide = 1;
  pulse_sync_active = false;
  pulse_prev_tap = 0;
  pulse_tap_armed = false;
  pulse_downbeat_suppressed = false;
  midi_sync_transmit = false;
  clock_run = ClockRun.none;
  midi_clock_count = 0;
  midi_beat_count = 0;
  sync_speed = pos 1;
  sync_type = false;
  sample_rate = 48000;
  metro_noise_offset = 0;
  metro_hi_offset = 0;
  metro_lo_offset = 0;
  sent = [];
}

abbrev pub recorder_of : Option ℕ → Recorder
recorder_of index = record {
  recording = index;
  waiting_start = false;
  waiting_stop = false;
  tail_remaining = none;
  started_late = false;
  start_phase = 0;
  elapsed_frames = 0;
  stop_target_len = none;
  skip_frames = 0;
  end_justify = false;
  pulse_beats = 0;
  pulse_extension_applied = false;
  alignment_frames = 0;
}

abbrev pub waiting_transfer : TransferSlot ℕ
waiting_transfer = record {
  state = queued;
  generation = 1;
  pcm = record { left = 0 ∷ 0 ∷ 0 ∷ []; right = 0 ∷ 0 ∷ 0 ∷ []; len = 0 };
}

abbrev pub first_handle : PcmTransferHandle
first_handle = record { index = 0; generation = 1 }

-- An engine with one loop, in the given mode and perhaps recorded.
abbrev pub one_loop : LoopMode → Option ℕ → Engine silent_pool
one_loop mode index = record {
  loops = three_frames mode ∷ [];
  loop_storage = four_blocks;
  clock = still_clock;
  recorder = recorder_of index;
  history = record { left = 0 ∷ 0 ∷ []; right = 0 ∷ 0 ∷ []; position = 0; len = 2 };
  mixer = record {
    monitor_gain = 1;
    master_gain = 1;
    fader_max_db = 6;
    input_volume = (1, 1);
    input_fader_volume = (1, 1);
    input_volume_delta = (1, 1);
    input_selected = (true, true);
    metro_enabled = false;
    metro_gain = 1;
    synth_enabled = true;
    synth_channel = 0;
    synth_stereo = true;
    calls = [];
  };
  calibrating = false;
  export_job = none;
  transfers = record { slots = waiting_transfer ∷ []; capacity = 3 };
  running = true;
  sent = [];
}

waiting_transfer-IsTransfer : IsTransfer waiting_transfer
waiting_transfer-IsTransfer = record {
  level = refl;
  fits = λ q. omega arith;
  short = λ q. omega arith;
}

pub idle-IsEngine : IsEngine (one_loop playing none)
idle-IsEngine = record {
  pool_valid = (four_blocks-IsStocked, four_blocks-IsBalanced);
  loops_valid = (three_frames-IsLoop playing, tt);
  recorded = λ i h. absurd cc;
  phase_fits = omega arith;
  history_level = refl;
  history_fits = omega arith;
  transfers_valid = (waiting_transfer-IsTransfer, tt);
}

pub recording-IsEngine : IsEngine (one_loop recording (some 0))
recording-IsEngine = record {
  pool_valid = (four_blocks-IsStocked, four_blocks-IsBalanced);
  loops_valid = (three_frames-IsLoop recording, tt);
  recorded = λ i h. let k : 0 ≡ i = cc in omega (arith, k);
  phase_fits = omega arith;
  history_level = refl;
  history_fits = omega arith;
  transfers_valid = (waiting_transfer-IsTransfer, tt);
}

abbrev pub running_export : ExportJob ℕ
running_export = record {
  slot = 0;
  handle = first_handle;
  cursor = 0;
  metadata = record {
    frames = 3;
    position = 1;
    mode = playing;
    gain = 1;
    pulse_frames = 24000;
    beats = 1;
  };
}

-- The engine of one loop, which it exports.
abbrev pub exporting : Engine silent_pool
exporting = record (one_loop playing none) { export_job = some running_export }

pub exporting-IsEngine : IsEngine exporting
exporting-IsEngine = record {
  pool_valid = (four_blocks-IsStocked, four_blocks-IsBalanced);
  loops_valid = (three_frames-IsLoop playing, tt);
  recorded = λ i h. absurd cc;
  phase_fits = omega arith;
  history_level = refl;
  history_fits = omega arith;
  transfers_valid = (waiting_transfer-IsTransfer, tt);
}
