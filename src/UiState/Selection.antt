-- ===== src/UiState/Selection.antt =====
-- src/native_ui_state.rs: one selection set of a frame.
use freewheeling_plus.Prelude.{
  ℕ, zero, suc, ◌+◌, ◌≤◌, ◌<◌, ◌≡◌, refl, sym, Bool, true, false, not, ◌&&◌, ◌||◌, List, [], ◌∷◌,
  ◌++◌, ◌==◌, ltb, length, get_or, set, replicate, contains, retain, Distinct, All, length-append,
  contains-append, length-set, length-replicate, ◌∙◌, ltb→lt, retain-Distinct, All-append, arith,
  Bool-cases, inl, inr,
}
use freewheeling_plus.UiState.{collect_ids, selection_set, max_ui_selection_items}

-- Ids of published loops, none of them twice.
pub record IsSelection (len : ℕ) (ids : List ℕ) : Type 0 where
  pub distinct : Distinct ids
  pub published : All (λ id. id < len) ids

retain_absent : (a : ℕ) (xs : List ℕ) → contains xs a ≡ false → retain (λ y. not (y == a)) xs ≡ xs
retain_absent a [] h = refl
retain_absent a (x ∷ xs) h = ground (arith, retain_absent a xs)

length-retain_ne :
    (a : ℕ) (xs : List ℕ) → Distinct xs → length xs ≤ length (retain (λ y. not (y == a)) xs) + 1
length-retain_ne a [] d = omega arith
length-retain_ne a (x ∷ xs) d = elim (Bool-cases (x == a)) [
  | inl e ↦
      let same : x ≡ a = ground arith in
      simp e (omega (arith, ap-length (retain_absent a xs (rw (sym same) d.0))))
  | inr e ↦ simp e (omega (arith, length-retain_ne a xs d.1))
]
  where
    ap-length : {xs ys : List ℕ} → xs ≡ ys → length xs ≡ length ys
    ap-length e = rw e

retain_below :
    (n : ℕ) (xs : List ℕ)
    → All (λ y. y < suc n) xs
    → All (λ y. y < n) (retain (λ y. not (y == n)) xs)
retain_below n [] a = tt
retain_below n (x ∷ xs) a = ground (arith, retain_below n xs a.1)

-- There are at most `n` distinct numbers below `n`.
pub length-Distinct : (n : ℕ) (xs : List ℕ) → Distinct xs → All (λ y. y < n) xs → length xs ≤ n
length-Distinct zero [] d a = omega arith
length-Distinct zero (x ∷ xs) d a = omega (arith, a.0)
length-Distinct (suc n) xs d a = omega (
  arith,
  length-retain_ne n xs d,
  length-Distinct n (retain (λ y. not (y == n)) xs) (retain-Distinct _ xs d) (retain_below n xs a),
)

append-Distinct :
    (xs : List ℕ) (a : ℕ) → Distinct xs → contains xs a ≡ false → Distinct (xs ++ a ∷ [])
append-Distinct [] a d h = (refl, tt)
append-Distinct (x ∷ xs) a d h =
    ground (arith, contains-append xs (a ∷ []) x, append-Distinct xs a d.1)

get_or-set :
    (xs : List Bool) (i k : ℕ)
    → i < length xs
    → get_or (set xs i true) k false ≡ (i == k || get_or xs k false)
get_or-set [] i k h = elim h [ ]
get_or-set (x ∷ xs) zero zero h = refl
get_or-set (x ∷ xs) zero (suc k) h = ground arith
get_or-set (x ∷ xs) (suc i) zero h = ground arith
get_or-set (x ∷ xs) (suc i) (suc k) h = ground (arith, get_or-set xs i k (omega arith))

-- The bits say what is in `out`.
record Tracks (len : ℕ) (seen : List Bool) (out : List ℕ) : Type 0 where
  sized : length seen ≡ len
  marks : (a : ℕ) → get_or seen a false ≡ contains out a
  selection : IsSelection len out

pushed-Tracks :
    (len : ℕ) (seen : List Bool) (out : List ℕ) (id : ℕ)
    → Tracks len seen out
    → id < len
    → get_or seen id false ≡ false
    → Tracks len (set seen id true) (out ++ id ∷ [])
pushed-Tracks len seen out id t below new = record {
  sized = length-set seen id true ∙ t.sized;
  marks = λ a. ground (
    arith,
    get_or-set seen id a (omega (arith, t.sized)),
    t.marks a,
    contains-append out (id ∷ []) a,
  );
  selection = record {
    distinct = append-Distinct out id t.selection.distinct (sym (t.marks id) ∙ new);
    published = All-append (λ x. x < len) out (id ∷ []) t.selection.published (below, tt);
  };
}

collect_ids-Tracks :
    (len : ℕ) (seen : List Bool) (out ids : List ℕ)
    → len ≤ max_ui_selection_items
    → Tracks len seen out
    → IsSelection len (collect_ids len seen out ids)
      × ((a : ℕ)
          → contains (collect_ids len seen out ids) a
            ≡ (contains out a || (contains ids a && ltb a len)))
unfolding collect_ids
collect_ids-Tracks len seen out [] small t = (t.selection, λ a. ground arith)
collect_ids-Tracks len seen out (id ∷ ids) small t = elim (Bool-cases (ltb id len)) [
  | inr beyond ↦
      let rest = collect_ids-Tracks len seen out ids small t in
      simp beyond (rest.0, λ a. ground (arith, rest.1 a))
  | inl below ↦ elim (Bool-cases (get_or seen id false)) [
    | inl again ↦
        let rest = collect_ids-Tracks len seen out ids small t in
        simp (below, again) (rest.0, λ a. ground (arith, rest.1 a, t.marks a))
    | inr new ↦
        let next = pushed-Tracks len seen out id t (ltb→lt id len below) new in
        let room : (length out == max_ui_selection_items) ≡ false = ground (
          arith,
          length-append out (id ∷ []),
          length-Distinct len (out ++ id ∷ []) next.selection.distinct next.selection.published,
        ) in
        let rest = collect_ids-Tracks len (set seen id true) (out ++ id ∷ []) ids small next in
        simp (below, new, room)
          (rest.0, λ a. ground (arith, rest.1 a, contains-append out (id ∷ []) a))
  ]
]

replicate-marks : (len a : ℕ) → get_or (replicate len false) a false ≡ false
replicate-marks zero a = refl
replicate-marks (suc len) zero = refl
replicate-marks (suc len) (suc a) = replicate-marks len a

start-Tracks : (len : ℕ) → Tracks len (replicate len false) []
start-Tracks len = record {
  sized = length-replicate len false;
  marks = replicate-marks len;
  selection = record { distinct = tt; published = tt };
}

pub selection_set-IsSelection :
    (len : ℕ) (ids : List ℕ)
    → len ≤ max_ui_selection_items
    → IsSelection len (selection_set len ids)
unfolding selection_set
selection_set-IsSelection len ids small =
    (collect_ids-Tracks len (replicate len false) [] ids small (start-Tracks len)).0

-- With at most 128 published loops, the limit of 128 items never cuts a selection set: the set has
-- exactly the given ids that are positions of published loops.
pub contains-selection_set :
    (len : ℕ) (ids : List ℕ) (a : ℕ)
    → len ≤ max_ui_selection_items
    → contains (selection_set len ids) a ≡ (contains ids a && ltb a len)
unfolding selection_set
contains-selection_set len ids a small =
    (collect_ids-Tracks len (replicate len false) [] ids small (start-Tracks len)).1 a
