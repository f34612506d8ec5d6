-- ===== src/Rename/Tests.antt =====
-- src/native_rename.rs: the theorems on a session, at concrete inputs.
use freewheeling_plus.Prelude.{◌≡◌, refl, true, false, List, [], ◌∷◌, none, some, ◌≤◌, ℕ, arith}
use freewheeling_plus.Prelude.Int.{pos}
use freewheeling_plus.Rename.{
  NativeRename, RenameTarget, browser, text, key_down, default, begin, finish, is_active, handle,
  append_text, append_chars, is_hidden, len_bytes, max_name_bytes, finish_taken, push_result,
  drop_front, handle_key,
}
use freewheeling_plus.Rename.Text.{visible}
use freewheeling_plus.Rename.Invariant.{
  Call, begins, handles, commits, cancels, pops, IsValid, run, run-IsValid, default-IsValid,
}
use freewheeling_plus.Rename.Session.{begin-finish, queued, dropped}

abbrev item : RenameTarget
item = browser (pos 3) 7

-- A zero-width space in the middle of the name.
abbrev old : List ℕ
old = 0x41 ∷ 0x200b ∷ 0x42 ∷ []

abbrev calls : List Call
calls =
    begins item (some old)
    ∷ handles (text (0x43 ∷ []))
    ∷ handles (key_down (pos 8))
    ∷ commits
    ∷ begins item none
    ∷ cancels
    ∷ pops
    ∷ []

run-IsValid_example : IsValid (run default calls)
run-IsValid_example = run-IsValid default calls default-IsValid

idle : is_active default ≡ false
unfolding is_active
idle = refl

old_fits : len_bytes old ≤ max_name_bytes
unfolding len_bytes freewheeling_plus.Rename.len_utf8
old_fits = omega arith

begin-finish_example :
    ((begin default item (some old)).1 ≡ true)
    × ((finish (begin default item (some old)).0 true).0.results
        ≡ queued [] (record { target = item; name = some (visible old) }))
    × (is_active (finish (begin default item (some old)).0 true).0 ≡ false)
    × ((finish (begin default item (some old)).0 true).0.dropped_results ≡ dropped [] 0)
begin-finish_example = begin-finish default item old true idle old_fits (omega arith)
