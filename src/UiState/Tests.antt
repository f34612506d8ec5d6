-- ===== src/UiState/Tests.antt =====
-- src/native_ui_state.rs: the theorems on a frame, at concrete inputs.
use freewheeling_plus.Prelude.{ℕ, ◌≡◌, ◌&&◌, true, false, [], ◌∷◌, none, some, contains, ltb, arith}
use freewheeling_plus.Prelude.Int.{pos}
use freewheeling_plus.UiState.{UiLoop, NativeUiState, UiRuntimeInput, sync, selection_set}
use freewheeling_plus.UiState.Selection.{contains-selection_set}
use freewheeling_plus.UiState.Frame.{IsFrame, sync-IsFrame}

abbrev a_loop : UiLoop ℕ
a_loop = record { id = 9; status = 1; frames = 100; position = 3; gain = 1 }

abbrev empty : NativeUiState ℕ
empty = record {
  sequence = 0;
  sample_clock = 0;
  pulse_position = 0;
  recording_slot = none;
  loops = [];
  browser_cursor = 0;
  browser_items = [];
  selection_sets = [];
  patch_bank_cursor = 0;
  patch_item_cursor = 0;
  patch_banks = [];
  snapshots = [];
  streaming = false;
  stream_bytes = 0;
  fullscreen = false;
  autosave = false;
  midi_sync = false;
}

-- A slot, a cursor and an id out of range, and an id that is given twice.
abbrev input : UiRuntimeInput ℕ
input = record {
  sequence = 4;
  sample_clock = 512;
  pulse_position = 7;
  recording_slot = some 2;
  loops = a_loop ∷ a_loop ∷ [];
  browser_cursor = 5;
  browser_items = record { id = pos 1; name = 0x41 ∷ []; selected = true; current = false } ∷ [];
  selections = (1 ∷ 5 ∷ 1 ∷ 0 ∷ []) ∷ [];
  patch_bank_cursor = 3;
  patch_item_cursor = 2;
  patch_banks = record { name = []; cursor = 8; items = [] ∷ [] ∷ [] } ∷ [];
  snapshots = [];
  streaming = true;
  stream_bytes = 10;
  fullscreen = false;
  autosave = true;
  midi_sync = false;
}

sync-IsFrame_example : IsFrame (sync empty input)
sync-IsFrame_example = sync-IsFrame empty input

contains-selection_set_example :
    contains (selection_set 2 (1 ∷ 5 ∷ 1 ∷ 0 ∷ [])) 5 ≡ (contains (1 ∷ 5 ∷ 1 ∷ 0 ∷ []) 5 && ltb 5 2)
contains-selection_set_example = contains-selection_set 2 (1 ∷ 5 ∷ 1 ∷ 0 ∷ []) 5 (omega arith)
