-- ===== src/UiState.antt =====
-- src/native_ui_state.rs: the bounded frame that the runtime publishes for the renderer. A string is
-- the list of its code points, and a gain is a value of the type `F` of samples.
mod Selection
mod Frame
mod Tests
use freewheeling_plus.Prelude.{
  ℕ, suc, ◌+◌, ◌-◌, min, Bool, true, false, not, ◌&&◌, Option, none, some, List, [], ◌∷◌, ◌++◌, map,
  ◌==◌, ltb, if◌then◌else◌, length, get_elem?, get_or, set, take, replicate,
}
use freewheeling_plus.Prelude.Int.{ℤ}
use freewheeling_plus.Prelude.Options.{keep_if}

abbrev pub max_ui_loops : ℕ
max_ui_loops = 128

abbrev pub max_ui_browser_items : ℕ
max_ui_browser_items = 256

abbrev pub max_ui_selection_sets : ℕ
max_ui_selection_sets = 10

abbrev pub max_ui_selection_items : ℕ
max_ui_selection_items = 128

abbrev pub max_ui_patch_banks : ℕ
max_ui_patch_banks = 64

abbrev pub max_ui_patch_items : ℕ
max_ui_patch_items = 512

abbrev pub max_ui_snapshots : ℕ
max_ui_snapshots = 128

pub record UiLoop (F : Type 0) : Type 0 where
  pub id : ℕ
  pub status : ℕ
  pub frames : ℕ
  pub position : ℕ
  pub gain : F

pub record UiBrowserItem : Type 0 where
  pub id : ℤ
  pub name : List ℕ
  pub selected : Bool
  pub current : Bool

pub record UiPatchBank : Type 0 where
  pub name : List ℕ
  pub cursor : ℕ
  pub items : List (List ℕ)

pub record UiSnapshot : Type 0 where
  pub id : ℤ
  pub name : List ℕ

pub record NativeUiState (F : Type 0) : Type 0 where
  pub sequence : ℕ
  pub sample_clock : ℕ
  pub pulse_position : ℕ
  pub recording_slot : Option ℕ
  pub loops : List (UiLoop F)
  pub browser_cursor : ℕ
  pub browser_items : List UiBrowserItem
  pub selection_sets : List (List ℕ)
  pub patch_bank_cursor : ℕ
  pub patch_item_cursor : ℕ
  pub patch_banks : List UiPatchBank
  pub snapshots : List UiSnapshot
  pub streaming : Bool
  pub stream_bytes : ℕ
  pub fullscreen : Bool
  pub autosave : Bool
  pub midi_sync : Bool

pub record UiRuntimeInput (F : Type 0) : Type 0 where
  pub sequence : ℕ
  pub sample_clock : ℕ
  pub pulse_position : ℕ
  pub recording_slot : Option ℕ
  pub loops : List (UiLoop F)
  pub browser_cursor : ℕ
  pub browser_items : List UiBrowserItem
  pub selections : List (List ℕ)
  pub patch_bank_cursor : ℕ
  pub patch_item_cursor : ℕ
  pub patch_banks : List UiPatchBank
  pub snapshots : List UiSnapshot
  pub streaming : Bool
  pub stream_bytes : ℕ
  pub fullscreen : Bool
  pub autosave : Bool
  pub midi_sync : Bool

pub clamp : ℕ → ℕ → ℕ
clamp value len = if len == 0 then 0 else min value (len - 1)

-- The loops under their positions, from `i` on.
pub renumber : {F : Type 0} → ℕ → List (UiLoop F) → List (UiLoop F)
renumber i [] = []
renumber i (v ∷ vs) = record v { id = i } ∷ renumber (suc i) vs

-- The loop over one selection set: `seen` has a bit for each of the `len` published loops.
pub collect_ids : ℕ → List Bool → List ℕ → List ℕ → List ℕ
collect_ids len seen out [] = out
collect_ids len seen out (id ∷ ids) =
    let skipped = collect_ids len seen out ids in
    let pushed = collect_ids len (set seen id true) (out ++ id ∷ []) ids in
    if ltb id len && not (get_or seen id false)
    then if length out == max_ui_selection_items then out else pushed
    else skipped

pub selection_set : ℕ → List ℕ → List ℕ
selection_set len ids = collect_ids len (replicate len false) [] ids

pub bounded_bank : UiPatchBank → UiPatchBank
bounded_bank b =
    let kept = take max_ui_patch_items b.items in
    record b { items = kept; cursor = clamp b.cursor (length kept) }

-- The item cursor, clamped to the bank that the cursor selects, if there is one.
pub item_cursor : Option UiPatchBank → ℕ → ℕ
item_cursor none cursor = cursor
item_cursor (some bank) cursor = clamp cursor (length bank.items)

-- `sync` assigns every field, in the source's order.
pub sync : {F : Type 0} → NativeUiState F → UiRuntimeInput F → NativeUiState F
sync s input =
    let loops = renumber 0 (take max_ui_loops input.loops) in
    let items = take max_ui_browser_items input.browser_items in
    let banks = map bounded_bank (take max_ui_patch_banks input.patch_banks) in
    let bank = clamp input.patch_bank_cursor (length banks) in
    record s {
      sequence = input.sequence;
      sample_clock = input.sample_clock;
      pulse_position = input.pulse_position;
      loops = loops;
      recording_slot = keep_if (λ slot. ltb slot (length loops)) input.recording_slot;
      browser_items = items;
      browser_cursor = clamp input.browser_cursor (length items);
      selection_sets =
          map (selection_set (length loops)) (take max_ui_selection_sets input.selections);
      patch_banks = banks;
      patch_bank_cursor = bank;
      patch_item_cursor = item_cursor (get_elem? banks bank) input.patch_item_cursor;
      snapshots = take max_ui_snapshots input.snapshots;
      streaming = input.streaming;
      stream_bytes = input.stream_bytes;
      fullscreen = input.fullscreen;
      autosave = input.autosave;
      midi_sync = input.midi_sync;
    }
