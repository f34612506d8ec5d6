-- ===== src/LoopSelection/Collect.antt =====
-- src/native_loop_selection.rs: the loops of `select_all` and `invert`, against the list of the
-- first occurrences.
use mathlib.Core.List.{append_assoc, append-nil}
use freewheeling_plus.Prelude.{
  ℕ, ◌+◌, ◌≤◌, ◌≡◌, refl, not, ◌&&◌, List, [], ◌∷◌, ◌++◌, leb, if◌then◌else◌, length, length-append,
  contains, contains-append, retain, Distinct, Result, ok, err, arith,
}
use freewheeling_plus.LoopSelection.{Error, capacity_exceeded, collect, collect_inverted}

-- The first occurrences of the ids that `seen` does not hold, in order.
unfoldable pub dedup : List ℕ → List ℕ → List ℕ
dedup seen [] = []
dedup seen (x ∷ xs) =
    let skipped = dedup seen xs in
    let kept = dedup (seen ++ x ∷ []) xs in if contains seen x then skipped else x ∷ kept

pub contains-dedup :
    (seen xs : List ℕ) (a : ℕ)
    → contains (dedup seen xs) a ≡ (contains xs a && not (contains seen a))
unfolding dedup
contains-dedup seen [] a = refl
contains-dedup seen (x ∷ xs) a = ground (
  arith,
  contains-dedup seen xs a,
  contains-dedup (seen ++ x ∷ []) xs a,
  contains-append seen (x ∷ []) a,
)

pub dedup-Distinct : (seen xs : List ℕ) → Distinct (dedup seen xs)
unfolding dedup
dedup-Distinct seen [] = tt
dedup-Distinct seen (x ∷ xs) = ground (
  arith,
  dedup-Distinct seen xs,
  dedup-Distinct (seen ++ x ∷ []) xs,
  contains-dedup (seen ++ x ∷ []) xs x,
  contains-append seen (x ∷ []) x,
)

-- The loop succeeds exactly if all first occurrences fit.
abbrev pub Fitted : ℕ → List ℕ → List ℕ → Result Error (List ℕ)
Fitted capacity next new_ids =
    if leb (length next + length new_ids) capacity
    then ok (next ++ new_ids)
    else err capacity_exceeded

pub collect_lem :
    (capacity : ℕ) (next ids : List ℕ)
    → length next ≤ capacity
    → collect capacity next ids ≡ Fitted capacity next (dedup next ids)
unfolding collect dedup
collect_lem capacity next [] h = ground (arith, append-nil next)
collect_lem capacity next (x ∷ xs) h = ground (
  arith,
  collect_lem capacity next xs h,
  collect_lem capacity (next ++ x ∷ []) xs,
  length-append next (x ∷ []),
  append_assoc next (x ∷ []) (dedup (next ++ x ∷ []) xs),
)

pub collect_inverted_lem :
    (capacity : ℕ) (old next ids : List ℕ)
    → collect_inverted capacity old next ids
      ≡ collect capacity next (retain (λ id. not (contains old id)) ids)
unfolding collect collect_inverted
collect_inverted_lem capacity old next [] = refl
collect_inverted_lem capacity old next (x ∷ xs) = ground (
  arith,
  collect_inverted_lem capacity old next xs,
  collect_inverted_lem capacity old (next ++ x ∷ []) xs,
)
