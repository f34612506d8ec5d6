-- ===== src/Lib.antt =====
-- The loop engine of FreeWheeling Plus and the parts around it that keep state.
--
-- The program is a live looping instrument. A control thread and the user interface send commands
-- through bounded queues to the audio callback, which records and plays loops, keeps the pulse that
-- they share, and sends statuses and snapshots back. PCM passes between the two sides in transfer
-- slots, and a worker thread supplies the callback with blocks to record into.
--
-- Which file models which part:
--   Engine/Pulse      src/native_dsp_graph.rs: the pulse clock. `PulseClock` has the fields of
--                     `RuntimeAudioProcessor` that it uses; Commands has an operation for each arm of
--                     `apply_command` on it, and Frame the end of a frame of `process`.
--   Engine/Transfer   src/native_dsp_graph.rs: `TransferPool` with `acquire`, `write_transfer`,
--                     `try_import_loop`, `try_request_loop_export`, `with_exported_pcm` and
--                     `release_transfer`, over the queue of commands (Engine/Command).
--   Engine/Storage    src/native_dsp_graph.rs: `LoopStoragePool` and `refill_loop_storage`.
--   Engine/Blocks     src/native_dsp_graph.rs: what the loops rely on of that pool, as an interface;
--                     Engine/Storage/Pool fills it for any ring of the queues.
--   Engine/Loop       src/native_dsp_graph.rs: `LoopSlot` with `capacity`, `sample_at`, `set_sample` and
--                     `smooth_unsynchronised_loop_endpoints`.
--   Engine/Mixer      src/native_dsp_graph.rs: the gains, inputs, metronome and synthesizer settings;
--                     src/core_dsp.rs: `AudioLevel::fader_to_db`.
--   Engine/Runtime    src/native_dsp_graph.rs: `RuntimeAudioProcessor`. Recording has `stop_recording`
--                     and `request_stop_recording`, Loops the arms of `apply_command` on loops, Pcm
--                     `ImportLoop`, `RequestLoopExport` and `advance_export`, Snapshot the loops of
--                     `snapshot`, and Apply the whole of `apply_command` with its guards.
--   Queue             src/realtime_queue.rs: `bounded`, `try_send`, `try_recv` and the counters. The
--                     ring of the crate rtrb is a parameter (Queue/Ring), with what its documentation
--                     says as laws, and a list as an instance.
--   LoopSelection     src/native_loop_selection.rs: `NativeLoopSelection`, all methods.
--   Rename            src/native_rename.rs: `NativeRename`, all methods.
--   UiState           src/native_ui_state.rs: `NativeUiState::sync`.
--   Midi              src/midiio.rs: `decode` and `encode`; Midi/Echo has `echo`, `echo_to_route` and
--                     `mapped_echo`, and Midi/Held `receive` and `release_held_notes`.
--   Params            src/paramset.rs: `set_param`, `get_param` and `show_page`.
--   Prelude           shared lists, results, machine words, integers and the interface of `f32`.
--
-- A method that takes `&mut self` returns the new state with its result. Integers are natural numbers
-- with the wrap, saturation or check of the source written out; `usize` has 64 bits. `f32` is a
-- parameter (Prelude/Floats) where the code computes with it, and an arbitrary type where it only
-- stores it. The MIDI backend is a parameter, its answer to a packet. A panic of Rust is the result `none`. A call of one thread is one step, so interleavings are sequences of calls.
--
-- Loops are structural. Where one runs on a bound, the bound is one that it cannot pass: the Euclidean
-- loop recurs on its second argument, `collect_loop` has the room of the vector that it fills, and
-- `drain_loop` the number of queued blocks. The loops that add blocks to a recording run on the
-- capacity that is asked for, since each block adds frames.
--
-- Not modelled: the frames of `process` in which loops record and play, the limiter, the peaks and the
-- snapshot ring for the display, the synthesizer (its calls are listed), floating-point sound, device, window and file I/O, threads and their wake-ups, and the configuration
-- and persistence formats, which stand on third-party parsers.
pub mod Prelude
pub mod LoopSelection
pub mod Midi
pub mod Engine
pub mod Rename
pub mod UiState
pub mod Queue
pub mod Params
