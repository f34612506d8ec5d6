-- ===== src/LoopSelection/Effects.antt =====
-- src/native_loop_selection.rs: what each method does to the membership of every set.
use freewheeling_plus.Prelude.{
  ℕ, ◌≡◌, Bool, not, ◌&&◌, List, [], ◌∷◌, ◌==◌, leb, if◌then◌else◌, length, get_elem?,
  get_elem?-set, get_elem?-map, set, contains, contains-append, contains-retain, retain, Distinct,
  Result, ok, err, ◌>>=◌, arith, Option-cases, Result-cases, inl, inr,
}
use freewheeling_plus.LoopSelection.{
  LoopSelection, Error, capacity_exceeded, selected, selected_ids, toggle, toggle_ids, select_all,
  invert, erase_selected, erase_from, position, put_set, get_set,
}
use freewheeling_plus.LoopSelection.Collect.{
  dedup, contains-dedup, dedup-Distinct, collect_lem, collect_inverted_lem,
}
use freewheeling_plus.LoopSelection.Membership.{position-none, position-some, contains-swap_remove}
use freewheeling_plus.LoopSelection.Invariant.{IsValid, IsValidSet, All-get}

toggle_ids_effect :
    (capacity : ℕ) (ids ids' : List ℕ) (loop_id j : ℕ) (now : Bool)
    → Distinct ids
    → toggle_ids capacity ids loop_id ≡ ok (ids', now)
    → (contains ids' j ≡ (if loop_id == j then now else contains ids j))
      × (now ≡ not (contains ids loop_id))
unfolding toggle_ids
toggle_ids_effect capacity ids ids' loop_id j now d h = elim (Option-cases (position ids loop_id)) [
  | inl e ↦ ground (arith, position-none ids loop_id e, contains-append ids (loop_id ∷ []) j)
  | inr (i, e) ↦
      ground (arith, contains-swap_remove ids loop_id i j d e, position-some ids loop_id i e)
]

-- A `toggle` that succeeds on a valid selection flips the membership of its id in its set, reports
-- the new membership, and changes no other id and no other set.
pub toggle-selected :
    (s s' : LoopSelection) (i loop_id : ℕ) (now : Bool) (k j : ℕ)
    → IsValid s
    → toggle s i loop_id ≡ ok (s', now)
    → (selected s i loop_id ≡ ok (not now))
      × (selected s' k j ≡ (if k == i && loop_id == j then ok now else selected s k j))
unfolding toggle selected get_set
toggle-selected s s' i loop_id now k j v h = elim (Option-cases (get_elem? s.sets i)) [
  | inl e ↦ ground arith
  | inr (ids, e) ↦ elim (Result-cases (toggle_ids s.capacity ids loop_id)) [
    | inr (x, f) ↦ ground arith
    | inl ((ids', now'), f) ↦ ground (
      arith,
      get_elem?-set s.sets i k ids' e,
      toggle_ids_effect s.capacity ids ids' loop_id j now'
          (All-get (IsValidSet s.capacity) s.sets i v.valid e).0 f,
    )
  ]
]

-- The set at an index that is there, replaced by ids that must fit, or the error.
abbrev Replaced : LoopSelection → ℕ → List ℕ → Result Error LoopSelection
Replaced s i next =
    if leb (length next) s.capacity then ok (put_set s i next) else err capacity_exceeded

-- On a set that exists `select_all` stores the first occurrences of the given ids, in their order,
-- if the capacity holds them all, and fails without an effect otherwise; on any other index it
-- fails with that index. The stored ids are those given, and none stands twice.
pub select_all_lem :
    (s : LoopSelection) (i : ℕ) (ids : List ℕ) (j : ℕ)
    → (select_all s i ids ≡ (get_set s i >>= λ _. Replaced s i (dedup [] ids)))
      × (contains (dedup [] ids) j ≡ contains ids j)
      × Distinct (dedup [] ids)
unfolding select_all
select_all_lem s i ids j = (
  elim (Result-cases (get_set s i)) [
    | inl (old, e) ↦ ground (arith, collect_lem s.capacity [] ids)
    | inr (x, e) ↦ ground arith
  ],
  ground (arith, contains-dedup [] ids j),
  dedup-Distinct [] ids,
)

-- `invert` on a set that exists stores the first occurrences of those given ids that the set did
-- not hold, if the capacity holds them, and fails without an effect otherwise; on any other index
-- it fails with that index. An id is stored exactly if it is given and was not selected.
pub invert_lem :
    (s : LoopSelection) (i : ℕ) (ids : List ℕ) (j : ℕ)
    → (invert s i ids ≡ (
        get_set s i >>= λ old. Replaced s i (dedup [] (retain (λ id. not (contains old id)) ids))))
      × ((old : List ℕ)
          → contains (dedup [] (retain (λ id. not (contains old id)) ids)) j
            ≡ (contains ids j && not (contains old j)))
unfolding invert
invert_lem s i ids j = (
  elim (Result-cases (get_set s i)) [
    | inl (old, e) ↦ ground (
      arith,
      collect_inverted_lem s.capacity old [] ids,
      collect_lem s.capacity [] (retain (λ id. not (contains old id)) ids),
    )
    | inr (x, e) ↦ ground arith
  ],
  λ old. ground (
    arith,
    contains-dedup [] (retain (λ id. not (contains old id)) ids) j,
    contains-retain (λ id. not (contains old id)) ids j,
  ),
)

-- `erase_selected` returns the ids of the set, and afterwards an id is in a set exactly if it was
-- there and is not one of those returned; the erased set itself is empty.
pub erase_selected-selected :
    (s s' : LoopSelection) (i : ℕ) (ids : List ℕ) (k j : ℕ)
    → erase_selected s i ≡ ok (s', ids)
    → (selected_ids s i ≡ ok ids)
      × (selected_ids s' i ≡ ok [])
      × (selected s' k j ≡ (do old ← selected s k j; ok (old && not (contains ids j))))
unfolding erase_selected erase_from selected selected_ids get_set
erase_selected-selected s s' i ids k j h = elim (Option-cases (get_elem? s.sets i)) [
  | inl e ↦ ground arith
  | inr ([], e) ↦ ground (arith, get_elem?-set s.sets i k [] e, get_elem?-set s.sets i i [] e)
  | inr (x ∷ xs, e) ↦
      let others : List ℕ → List ℕ = retain (λ y. not (contains (x ∷ xs) y)) in
      let kept = get_elem?-map others (set s.sets i []) in
      let put = λ (m : ℕ). get_elem?-set s.sets i m [] e in
      elim (Option-cases (get_elem? s.sets k)) [
        | inl none_k ↦ ground (arith, put k, put i, kept k, kept i)
        | inr (ys, some_k) ↦ ground (
          arith,
          put k,
          put i,
          kept k,
          kept i,
          contains-retain (λ y. not (contains (x ∷ xs) y)) ys j,
        )
      ]
]
