-- ===== src/LoopSelection/Tests.antt =====
-- src/native_loop_selection.rs: the theorems at small selections.
use freewheeling_plus.Prelude.{
  ◌≡◌, refl, true, false, not, ◌&&◌, [], ◌∷◌, ◌==◌, if◌then◌else◌, contains, Distinct, ok, ◌>>=◌,
  arith,
}
use freewheeling_plus.LoopSelection.{
  LoopSelection, selected, selected_ids, toggle, toggle_ids, position, swap_remove, get_set,
  put_set, select_all, invert, erase_selected,
}
use freewheeling_plus.LoopSelection.Collect.{dedup}
use freewheeling_plus.LoopSelection.Invariant.{IsValid, moved, step, step-IsValid}
use freewheeling_plus.LoopSelection.Effects.{
  toggle-selected, select_all_lem, invert_lem, erase_selected-selected,
}

abbrev sample : LoopSelection
sample = record {
  sets = (4 ∷ 7 ∷ 5 ∷ []) ∷ (5 ∷ 6 ∷ []) ∷ [] ∷ [] ∷ [] ∷ [] ∷ [] ∷ [] ∷ [] ∷ (1 ∷ []) ∷ [];
  capacity = 3;
}

sample-IsValid : IsValid sample
sample-IsValid = ground arith

-- `swap_remove` moves the last id into the hole.
abbrev toggled : LoopSelection
toggled = put_set sample 0 (5 ∷ 7 ∷ [])

toggle-sample : toggle sample 0 4 ≡ ok (toggled, false)
unfolding toggle toggle_ids position swap_remove
toggle-sample = refl

toggle-selected_example :
    (selected sample 0 4 ≡ ok true)
    × (selected toggled 0 5 ≡ (if 0 == 0 && 4 == 5 then ok false else selected sample 0 5))
toggle-selected_example = toggle-selected sample toggled 0 4 false 0 5 sample-IsValid toggle-sample

select_all_lem_example :
    (select_all sample 1 (3 ∷ 2 ∷ 3 ∷ []) ≡ ok (put_set sample 1 (3 ∷ 2 ∷ [])))
    × (contains (3 ∷ 2 ∷ []) 2 ≡ true)
    × Distinct (3 ∷ 2 ∷ [])
unfolding dedup get_set
select_all_lem_example = select_all_lem sample 1 (3 ∷ 2 ∷ 3 ∷ []) 2

invert_lem_example : invert sample 1 (6 ∷ 2 ∷ 3 ∷ []) ≡ ok (put_set sample 1 (2 ∷ 3 ∷ []))
unfolding dedup get_set
invert_lem_example = (invert_lem sample 1 (6 ∷ 2 ∷ 3 ∷ []) 2).0

abbrev erased_sample : LoopSelection
erased_sample = record sample {
  sets = [] ∷ (6 ∷ []) ∷ [] ∷ [] ∷ [] ∷ [] ∷ [] ∷ [] ∷ [] ∷ (1 ∷ []) ∷ [];
}

erase_sample : erase_selected sample 0 ≡ ok (erased_sample, 4 ∷ 7 ∷ 5 ∷ [])
unfolding erase_selected
erase_sample = refl

erase_selected-selected_example :
    (selected_ids sample 0 ≡ ok (4 ∷ 7 ∷ 5 ∷ []))
    × (selected_ids erased_sample 0 ≡ ok [])
    × (selected erased_sample 1 5
        ≡ (do old ← selected sample 1 5; ok (old && not (contains (4 ∷ 7 ∷ 5 ∷ []) 5))))
erase_selected-selected_example =
    erase_selected-selected sample erased_sample 0 (4 ∷ 7 ∷ 5 ∷ []) 1 5 erase_sample

step-IsValid_example : IsValid (step sample (moved 4 9))
step-IsValid_example = step-IsValid sample (moved 4 9) sample-IsValid (ground arith)
