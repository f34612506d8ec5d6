-- ===== src/LoopSelection/Invariant.antt =====
-- src/native_loop_selection.rs: every set stays within the capacity and free of repetitions.
use freewheeling_plus.Prelude.{
  ℕ, zero, suc, ◌≤◌, ◌≡◌, Bool, false, not, List, [], ◌∷◌, map, ◌==◌, length, length-append,
  length-map, length-set, get_elem?, set, contains, ◌∙◌, retain, retain-Distinct, length-retain-le,
  Distinct, All, Result, ok, err, ◌>>=◌, arith, some, Option-cases, Result-cases, sym, subst, inl,
  inr,
}
use freewheeling_plus.LoopSelection.{
  LoopSelection, Error, new, toggle, toggle_ids, clear, select_all, select_only_playing, invert,
  update_after_erase, update_after_import, update_after_move, erase_selected, erase_from, collect,
  collect_inverted, position, rename_first, put_set, get_set, num_selection_sets,
}
use freewheeling_plus.LoopSelection.Collect.{dedup-Distinct, collect_lem, collect_inverted_lem}
use freewheeling_plus.LoopSelection.Membership.{
  position-none, swap_remove-Distinct, length-swap_remove, rename_first-Distinct,
  length-rename_first, append_one-Distinct,
}

-- One set: no id stands twice, and the capacity holds.
abbrev pub IsValidSet : ℕ → List ℕ → Type 0
IsValidSet capacity ids = Distinct ids × (length ids ≤ capacity)

pub record IsValid (s : LoopSelection) : Type 0 where
  pub counted : length s.sets ≡ num_selection_sets
  pub valid : All (IsValidSet s.capacity) s.sets

module _ (P : List ℕ → Type 0) where
  pub All-get : (xs : List (List ℕ)) (i : ℕ) {x : List ℕ} → All P xs → get_elem? xs i ≡ some x → P x
  All-get [] i a h = ground arith
  All-get (x ∷ xs) zero a h = subst P (ground arith) a.0
  All-get (x ∷ xs) (suc i) a h = All-get xs i a.1 h

  All-set : (xs : List (List ℕ)) (i : ℕ) (x : List ℕ) → All P xs → P x → All P (set xs i x)
  All-set [] i x a p = tt
  All-set (y ∷ xs) zero x a p = (p, a.1)
  All-set (y ∷ xs) (suc i) x a p = (a.0, All-set xs i x a.1 p)

  All-map :
      (Q : List ℕ → Type 0) (f : List ℕ → List ℕ) (xs : List (List ℕ))
      → ((x : List ℕ) → Q x → P (f x))
      → All Q xs
      → All P (map f xs)
  All-map Q f [] keep a = tt
  All-map Q f (x ∷ xs) keep a = (keep x a.0, All-map Q f xs keep a.1)

put_set-IsValid :
    (s : LoopSelection) (i : ℕ) (ids : List ℕ)
    → IsValid s
    → IsValidSet s.capacity ids
    → IsValid (put_set s i ids)
put_set-IsValid s i ids v h = record {
  counted = length-set s.sets i ids ∙ v.counted;
  valid = All-set (IsValidSet s.capacity) s.sets i ids v.valid h;
}

map_sets-IsValid :
    (s : LoopSelection) (f : List ℕ → List ℕ)
    → ((ids : List ℕ) → IsValidSet s.capacity ids → IsValidSet s.capacity (f ids))
    → IsValid s
    → IsValid (record s { sets = map f s.sets })
map_sets-IsValid s f keep v = record {
  counted = length-map s.sets f ∙ v.counted;
  valid = All-map (IsValidSet s.capacity) (IsValidSet s.capacity) f s.sets keep v.valid;
}

retain-IsValidSet :
    (capacity : ℕ) (p : ℕ → Bool) (ids : List ℕ)
    → IsValidSet capacity ids
    → IsValidSet capacity (retain p ids)
retain-IsValidSet capacity p ids v =
    (retain-Distinct p ids v.0, omega (arith, length-retain-le p ids))

pub toggle_ids-IsValidSet :
    (capacity : ℕ) (ids ids' : List ℕ) (loop_id : ℕ) (now : Bool)
    → IsValidSet capacity ids
    → toggle_ids capacity ids loop_id ≡ ok (ids', now)
    → IsValidSet capacity ids'
unfolding toggle_ids
toggle_ids-IsValidSet capacity ids ids' loop_id now v h =
    elim (Option-cases (position ids loop_id)) [
      | inl e ↦ ground (
        arith,
        append_one-Distinct ids loop_id v.0 (position-none ids loop_id e),
        length-append ids (loop_id ∷ []),
      )
      | inr (i, e) ↦
          ground
            (arith, swap_remove-Distinct ids loop_id i v.0 e, length-swap_remove ids loop_id i e)
    ]

-- The calls that change a selection.
pub data Op : Type 0 where
  toggles : ℕ → ℕ → Op
  clears : ℕ → Op
  selects_all : ℕ → List ℕ → Op
  selects_playing : ℕ → List ℕ → (ℕ → Bool) → Op
  inverts : ℕ → List ℕ → Op
  erased : ℕ → Op
  imported : List ℕ → Op
  moved : ℕ → ℕ → Op
  erases_selected : ℕ → Op

abbrev after : LoopSelection → Result Error LoopSelection → LoopSelection
after s (ok s') = s'
after s (err e) = s

-- A call that fails leaves the selection as it was.
pub step : LoopSelection → Op → LoopSelection
step s (toggles i loop_id) = after s (do (s', _) ← toggle s i loop_id; ok s')
step s (clears i) = after s (clear s i)
step s (selects_all i ids) = after s (select_all s i ids)
step s (selects_playing i ids playing) = after s (select_only_playing s i ids playing)
step s (inverts i ids) = after s (invert s i ids)
step s (erased loop_id) = update_after_erase s loop_id
step s (imported ids) = update_after_import s ids
step s (moved old_id new_id) = update_after_move s old_id new_id
step s (erases_selected i) = after s (do (s', _) ← erase_selected s i; ok s')

-- A renumbering gives an id that no set holds: `MoveLoop` goes to an empty slot.
abbrev pub IsAllowed : LoopSelection → Op → Type 0
IsAllowed s (moved old_id new_id) = All (λ ids. contains ids new_id ≡ false) s.sets
IsAllowed s _ = Unit

Fitted-IsValidSet :
    (capacity : ℕ) (ids next : List ℕ)
    → collect capacity [] ids ≡ ok next
    → IsValidSet capacity next
Fitted-IsValidSet capacity ids next h =
    ground (arith, collect_lem capacity [] ids, dedup-Distinct [] ids)

module _ (s : LoopSelection) (i : ℕ) (v : IsValid s) where
  toggle-IsValid : (loop_id : ℕ) → IsValid (step s (toggles i loop_id))
  unfolding step toggle get_set
  toggle-IsValid loop_id = elim (Option-cases (get_elem? s.sets i)) [
    | inl e ↦ rw e v
    | inr (ids, e) ↦ rw e (elim (Result-cases (toggle_ids s.capacity ids loop_id)) [
      | inr (x, f) ↦ rw f v
      | inl ((ids', now), f) ↦ rw f (
          put_set-IsValid s i ids' v (
            toggle_ids-IsValidSet s.capacity ids ids' loop_id now
              (All-get (IsValidSet s.capacity) s.sets i v.valid e) f))
    ])
  ]

  clear-IsValid : IsValid (step s (clears i))
  unfolding step clear get_set
  clear-IsValid = elim (Option-cases (get_elem? s.sets i)) [
    | inl e ↦ rw e v
    | inr (ids, e) ↦ rw e (put_set-IsValid s i [] v (tt, omega arith))
  ]

  select_all-IsValid : (ids : List ℕ) → IsValid (after s (select_all s i ids))
  unfolding select_all get_set
  select_all-IsValid ids = elim (Option-cases (get_elem? s.sets i)) [
    | inl e ↦ rw e v
    | inr (old, e) ↦ rw e (elim (Result-cases (collect s.capacity [] ids)) [
      | inr (x, f) ↦ rw f v
      | inl (next, f) ↦ rw f (put_set-IsValid s i next v (Fitted-IsValidSet s.capacity ids next f))
    ])
  ]

  invert-IsValid : (ids : List ℕ) → IsValid (step s (inverts i ids))
  unfolding step invert get_set
  invert-IsValid ids = elim (Option-cases (get_elem? s.sets i)) [
    | inl e ↦ rw e v
    | inr (old, e) ↦ rw e (elim (Result-cases (collect_inverted s.capacity old [] ids)) [
      | inr (x, f) ↦ rw f v
      | inl (next, f) ↦ rw f (
          put_set-IsValid s i next v (
            Fitted-IsValidSet s.capacity (retain (λ id. not (contains old id)) ids) next
              (sym (collect_inverted_lem s.capacity old [] ids) ∙ f)))
    ])
  ]

  erase_from-IsValid : (ids : List ℕ) → IsValid (erase_from (put_set s i []) ids)
  unfolding erase_from
  erase_from-IsValid [] = put_set-IsValid s i [] v (tt, omega arith)
  erase_from-IsValid (id ∷ ids) =
      map_sets-IsValid (put_set s i []) (retain (λ x. not (contains (id ∷ ids) x)))
        (λ xs h. retain-IsValidSet s.capacity (λ x. not (contains (id ∷ ids) x)) xs h)
        (put_set-IsValid s i [] v (tt, omega arith))

  erase_selected-IsValid : IsValid (step s (erases_selected i))
  unfolding step erase_selected get_set
  erase_selected-IsValid = elim (Option-cases (get_elem? s.sets i)) [
    | inl e ↦ rw e v
    | inr (ids, e) ↦ rw e (erase_from-IsValid ids)
  ]

update_after_move-IsValid :
    (s : LoopSelection) (old_id new_id : ℕ)
    → IsValid s
    → All (λ ids. contains ids new_id ≡ false) s.sets
    → IsValid (update_after_move s old_id new_id)
unfolding update_after_move
update_after_move-IsValid s old_id new_id v fresh = record {
  counted = length-map s.sets (rename_first old_id new_id) ∙ v.counted;
  valid = renamed s.sets v.valid fresh;
}
  where
    renamed :
        (xs : List (List ℕ))
        → All (IsValidSet s.capacity) xs
        → All (λ ids. contains ids new_id ≡ false) xs
        → All (IsValidSet s.capacity) (map (rename_first old_id new_id) xs)
    renamed [] a f = tt
    renamed (x ∷ xs) a f = (
      (
        rename_first-Distinct old_id new_id x a.0.0 f.0,
        omega (arith, length-rename_first old_id new_id x, a.0.1),
      ),
      renamed xs a.1 f.1,
    )

-- From a selection whose ten sets are within the capacity and free of repetitions every call leads
-- to such a selection, failing calls included; a renumbering must give an id that no set holds.
pub step-IsValid : (s : LoopSelection) (op : Op) → IsValid s → IsAllowed s op → IsValid (step s op)
unfolding step select_only_playing update_after_erase update_after_import
step-IsValid s (toggles i loop_id) v a = toggle-IsValid s i v loop_id
step-IsValid s (clears i) v a = clear-IsValid s i v
step-IsValid s (selects_all i ids) v a = select_all-IsValid s i v ids
step-IsValid s (selects_playing i ids playing) v a = select_all-IsValid s i v (retain playing ids)
step-IsValid s (inverts i ids) v a = invert-IsValid s i v ids
step-IsValid s (erased loop_id) v a =
    map_sets-IsValid s (retain (λ id. not (id == loop_id)))
      (λ xs h. retain-IsValidSet s.capacity (λ id. not (id == loop_id)) xs h) v
step-IsValid s (imported ids) v a =
    map_sets-IsValid s (retain (contains ids))
      (λ xs h. retain-IsValidSet s.capacity (contains ids) xs h) v
step-IsValid s (moved old_id new_id) v a = update_after_move-IsValid s old_id new_id v a
step-IsValid s (erases_selected i) v a = erase_selected-IsValid s i v

-- A new selection has its ten sets empty.
pub new-IsValid : (capacity : ℕ) → IsValid (new capacity)
unfolding new
new-IsValid capacity = omega arith
