-- ===== src/UiState/Frame.antt =====
-- src/native_ui_state.rs: what the renderer may rely on in a published frame.
use freewheeling_plus.Prelude.{
  ℕ, zero, suc, ◌+◌, ◌≤◌, ◌<◌, ◌≡◌, refl, Option, none, some, List, [], ◌∷◌, map, ltb, length,
  get_elem?, take, All, length-take, length-map, arith, Bool-cases, inl, inr, ◌⊎◌, ltb→lt,
}
use freewheeling_plus.Prelude.Options.{keep_if}
use freewheeling_plus.UiState.{
  UiLoop, UiPatchBank, NativeUiState, UiRuntimeInput, clamp, renumber, selection_set, bounded_bank,
  item_cursor, sync, max_ui_loops, max_ui_browser_items, max_ui_selection_sets, max_ui_patch_banks,
  max_ui_patch_items, max_ui_snapshots,
}
use freewheeling_plus.UiState.Selection.{IsSelection, selection_set-IsSelection}

-- A cursor into a list of `len` entries: within it, or 0 where it is empty.
abbrev pub IsCursor : ℕ → ℕ → Type 0
IsCursor cursor len = cursor + 1 ≤ len ⊎ (len ≡ 0) × (cursor ≡ 0)

pub record IsBank (b : UiPatchBank) : Type 0 where
  pub bounded : length b.items ≤ max_ui_patch_items
  pub cursor : IsCursor b.cursor (length b.items)

-- A slot that is named lies in the list.
abbrev pub IsSlot : Option ℕ → ℕ → Type 0
IsSlot none len = Unit
IsSlot (some slot) len = slot < len

-- The item cursor lies in the bank that the bank cursor selects; without a bank nothing is said.
abbrev pub IsItem : Option UiPatchBank → ℕ → Type 0
IsItem none cursor = Unit
IsItem (some bank) cursor = IsCursor cursor (length bank.items)

-- The loops carry their positions, from `i` on, as ids.
abbrev pub Numbered : {F : Type 0} → ℕ → List (UiLoop F) → Type 0
Numbered i [] = Unit
Numbered i (v ∷ vs) = (v.id ≡ i) × Numbered (suc i) vs

pub record IsFrame {F : Type 0} (s : NativeUiState F) : Type 0 where
  pub loops_bounded : length s.loops ≤ max_ui_loops
  pub loops_numbered : Numbered 0 s.loops
  pub recording : IsSlot s.recording_slot (length s.loops)
  pub browser_bounded : length s.browser_items ≤ max_ui_browser_items
  pub browser : IsCursor s.browser_cursor (length s.browser_items)
  pub sets_bounded : length s.selection_sets ≤ max_ui_selection_sets
  pub selections : All (IsSelection (length s.loops)) s.selection_sets
  pub banks_bounded : length s.patch_banks ≤ max_ui_patch_banks
  pub banks : All IsBank s.patch_banks
  pub bank : IsCursor s.patch_bank_cursor (length s.patch_banks)
  pub item : IsItem (get_elem? s.patch_banks s.patch_bank_cursor) s.patch_item_cursor
  pub snapshots_bounded : length s.snapshots ≤ max_ui_snapshots

clamp-IsCursor : (value len : ℕ) → IsCursor (clamp value len) len
unfolding clamp
clamp-IsCursor value zero = inr (refl, refl)
clamp-IsCursor value (suc n) = inl (ground arith)

renumber-Numbered : {F : Type 0} (i : ℕ) (vs : List (UiLoop F)) → Numbered i (renumber i vs)
unfolding renumber
renumber-Numbered i [] = tt
renumber-Numbered i (v ∷ vs) = (refl, renumber-Numbered (suc i) vs)

length-renumber : {F : Type 0} (i : ℕ) (vs : List (UiLoop F)) → length (renumber i vs) ≡ length vs
unfolding renumber
length-renumber i [] = refl
length-renumber i (v ∷ vs) = omega (arith, length-renumber (suc i) vs)

keep_if-IsSlot : (o : Option ℕ) (len : ℕ) → IsSlot (keep_if (λ slot. ltb slot len) o) len
keep_if-IsSlot none len = tt
keep_if-IsSlot (some slot) len = elim (Bool-cases (ltb slot len)) [
  | inl e ↦ rw e (ltb→lt slot len e)
  | inr e ↦ rw e tt
]

take-le {ℓ} : {A : Type ℓ} (n : ℕ) (xs : List A) → length (take n xs) ≤ n
take-le n xs = omega (arith, length-take n xs)

All-map {ℓ κ} :
    {A : Type ℓ} {B : Type κ} (P : B → Type 0) (f : A → B) (xs : List A)
    → ((a : A) → P (f a))
    → All P (map f xs)
All-map P f [] h = tt
All-map P f (x ∷ xs) h = (h x, All-map P f xs h)

bounded_bank-IsBank : (b : UiPatchBank) → IsBank (bounded_bank b)
unfolding bounded_bank
bounded_bank-IsBank b = record {
  bounded = take-le max_ui_patch_items b.items;
  cursor = clamp-IsCursor b.cursor (length (take max_ui_patch_items b.items));
}

item_cursor-IsItem : (o : Option UiPatchBank) (cursor : ℕ) → IsItem o (item_cursor o cursor)
unfolding item_cursor
item_cursor-IsItem none cursor = tt
item_cursor-IsItem (some bank) cursor = clamp-IsCursor cursor (length bank.items)

-- Whatever the runtime hands over, the published frame keeps every bound of the renderer: each list
-- within its maximum, the loops under their positions as ids, the recording slot and each cursor
-- inside its list (0 where that is empty), but the patch item cursor only if there is a patch bank,
-- since `sync` publishes it as it came where there is none, and each selection set of distinct ids of published loops.
pub sync-IsFrame :
    {F : Type 0} (s : NativeUiState F) (input : UiRuntimeInput F) → IsFrame (sync s input)
unfolding sync
sync-IsFrame s input =
    let kept = take max_ui_loops input.loops in
    let few : length (renumber 0 kept) ≤ 128 =
      omega (arith, length-renumber 0 kept, take-le max_ui_loops input.loops) in
    let banks = take max_ui_patch_banks input.patch_banks in
    record {
      loops_bounded = few;
      loops_numbered = renumber-Numbered 0 kept;
      recording = keep_if-IsSlot input.recording_slot (length (renumber 0 kept));
      browser_bounded = take-le max_ui_browser_items input.browser_items;
      browser = clamp-IsCursor input.browser_cursor _;
      sets_bounded = omega (
        arith,
        length-map (take max_ui_selection_sets input.selections)
            (selection_set (length (renumber 0 kept))),
        take-le max_ui_selection_sets input.selections,
      );
      selections =
          All-map (IsSelection (length (renumber 0 kept)))
            (selection_set (length (renumber 0 kept))) (take max_ui_selection_sets input.selections)
            (λ ids. selection_set-IsSelection _ ids few);
      banks_bounded =
          omega
            (arith, length-map banks bounded_bank, take-le max_ui_patch_banks input.patch_banks);
      banks = All-map IsBank bounded_bank banks bounded_bank-IsBank;
      bank = clamp-IsCursor input.patch_bank_cursor _;
      item = item_cursor-IsItem _ input.patch_item_cursor;
      snapshots_bounded = take-le max_ui_snapshots input.snapshots;
    }
