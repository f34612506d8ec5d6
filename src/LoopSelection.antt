-- ===== src/LoopSelection.antt =====
-- src/native_loop_selection.rs: the ten selection sets of loop ids, `NativeLoopSelection` and its
-- methods. A method that takes `&mut self` returns the new selection with its result; the two
-- error texts are the constructors of `Error`. A `Vec` is a list, and the `HashSet` of a lookup is
-- the list that it is collected from.
mod Collect
mod Membership
mod Invariant
mod Effects
mod Tests
use freewheeling_plus.Prelude.{
  ℕ, zero, suc, ◌+◌, ◌≡◌, Bool, true, false, not, ◌||◌, Option, none, some, List, [], ◌∷◌, ◌++◌,
  map, ◌==◌, if◌then◌else◌, length, get_elem?, set, replicate, contains, retain, Result, ok, err,
  ok_or, ◌>>=◌,
}

abbrev pub num_selection_sets : ℕ
num_selection_sets = 10

pub data Error : Type 0 where
  invalid_set : ℕ → Error
  capacity_exceeded : Error

pub record LoopSelection : Type 0 where
  pub sets : List (List ℕ)
  pub capacity : ℕ

pub new : ℕ → LoopSelection
new capacity = record { sets = replicate num_selection_sets []; capacity = capacity }

-- `set` and `set_mut`: the indexed set, or the error that names the index.
pub get_set : LoopSelection → ℕ → Result Error (List ℕ)
get_set s i = ok_or (invalid_set i) (get_elem? s.sets i)

abbrev pub put_set : LoopSelection → ℕ → List ℕ → LoopSelection
put_set s i ids = record s { sets = set s.sets i ids }

pub selected : LoopSelection → ℕ → ℕ → Result Error Bool
selected s i loop_id = do ids ← get_set s i; ok (contains ids loop_id)

pub selected_ids : LoopSelection → ℕ → Result Error (List ℕ)
selected_ids s i = get_set s i

pub count : LoopSelection → ℕ → Result Error ℕ
count s i = do ids ← get_set s i; ok (length ids)

-- `iter().position(|&id| id == loop_id)`.
pub position : List ℕ → ℕ → Option ℕ
position [] a = none
position (x ∷ xs) a =
    let rest = position xs a in
    if x == a then some 0 else elim rest [ none ↦ none | some i ↦ some (suc i) ]

-- `Vec::swap_remove` fills the hole with the last element.
pub last_of : ℕ → List ℕ → ℕ
last_of x [] = x
last_of x (y ∷ ys) = last_of y ys

pub init_of : ℕ → List ℕ → List ℕ
init_of x [] = []
init_of x (y ∷ ys) = x ∷ init_of y ys

pub fill_hole : List ℕ → List ℕ
fill_hole [] = []
fill_hole (x ∷ xs) = last_of x xs ∷ init_of x xs

pub swap_remove : List ℕ → ℕ → List ℕ
unfolding fill_hole last_of init_of
swap_remove [] i = []
swap_remove (x ∷ xs) zero = fill_hole xs
swap_remove (x ∷ xs) (suc i) = x ∷ swap_remove xs i

-- What `toggle` does to the one set: the new set, and whether the id is selected now.
pub toggle_ids : ℕ → List ℕ → ℕ → Result Error (List ℕ × Bool)
toggle_ids capacity ids loop_id = elim (position ids loop_id) [
  | some pos ↦ ok (swap_remove ids pos, false)
  | none ↦ if length ids == capacity then err capacity_exceeded else ok (ids ++ loop_id ∷ [], true)
]

pub toggle : LoopSelection → ℕ → ℕ → Result Error (LoopSelection × Bool)
unfolding get_set
toggle s i loop_id = do
  ids ← get_set s i
  (ids', now) ← toggle_ids s.capacity ids loop_id
  ok (put_set s i ids', now)

pub clear : LoopSelection → ℕ → Result Error LoopSelection
unfolding get_set
clear s i = do _ ← get_set s i; ok (put_set s i [])

-- The loop of `select_all`: ids that are there already are skipped.
pub collect : ℕ → List ℕ → List ℕ → Result Error (List ℕ)
collect capacity next [] = ok next
collect capacity next (id ∷ ids) =
    let skipped = collect capacity next ids in
    let pushed = collect capacity (next ++ id ∷ []) ids in
    if contains next id
    then skipped
    else if length next == capacity
    then err capacity_exceeded
    else pushed

pub select_all : LoopSelection → ℕ → List ℕ → Result Error LoopSelection
unfolding get_set
select_all s i loop_ids = do
  _ ← get_set s i
  next ← collect s.capacity [] loop_ids
  ok (put_set s i next)

pub select_only_playing : LoopSelection → ℕ → List ℕ → (ℕ → Bool) → Result Error LoopSelection
unfolding select_all
select_only_playing s i loop_ids playing = select_all s i (retain playing loop_ids)

-- The loop of `invert`.
pub collect_inverted : ℕ → List ℕ → List ℕ → List ℕ → Result Error (List ℕ)
collect_inverted capacity old next [] = ok next
collect_inverted capacity old next (id ∷ ids) =
    let skipped = collect_inverted capacity old next ids in
    let pushed = collect_inverted capacity old (next ++ id ∷ []) ids in
    if contains old id || contains next id
    then skipped
    else if length next == capacity
    then err capacity_exceeded
    else pushed

pub invert : LoopSelection → ℕ → List ℕ → Result Error LoopSelection
unfolding get_set
invert s i loop_ids = do
  old ← get_set s i
  next ← collect_inverted s.capacity old [] loop_ids
  ok (put_set s i next)

pub update_after_erase : LoopSelection → ℕ → LoopSelection
update_after_erase s loop_id = record s { sets = map (retain (λ id. not (id == loop_id))) s.sets }

pub update_after_import : LoopSelection → List ℕ → LoopSelection
update_after_import s available = record s { sets = map (retain (contains available)) s.sets }

-- `iter_mut().find(..)`: the first occurrence only.
pub rename_first : ℕ → ℕ → List ℕ → List ℕ
rename_first old_id new_id [] = []
rename_first old_id new_id (x ∷ xs) =
    let rest = rename_first old_id new_id xs in if x == old_id then new_id ∷ xs else x ∷ rest

pub update_after_move : LoopSelection → ℕ → ℕ → LoopSelection
update_after_move s old_id new_id = record s { sets = map (rename_first old_id new_id) s.sets }

-- `mem::take` empties the set before the others are filtered.
pub erase_from : LoopSelection → List ℕ → LoopSelection
erase_from s [] = s
erase_from s (id ∷ ids) = record s { sets = map (retain (λ x. not (contains (id ∷ ids) x))) s.sets }

pub erase_selected : LoopSelection → ℕ → Result Error (LoopSelection × List ℕ)
unfolding get_set erase_from
erase_selected s i = do ids ← get_set s i; ok (erase_from (put_set s i []) ids, ids)
