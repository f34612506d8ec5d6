-- ===== src/LoopSelection/Membership.antt =====
-- src/native_loop_selection.rs: which ids a set holds after `swap_remove`, `toggle` and
-- `rename_first`.
use freewheeling_plus.Prelude.{
  ℕ, zero, suc, ◌+◌, ◌≡◌, refl, true, false, not, ◌&&◌, ◌||◌, List, [], ◌∷◌, ◌++◌, ◌==◌,
  if◌then◌else◌, length, contains, contains-append, Distinct, arith, ap, none, some,
}
use freewheeling_plus.LoopSelection.{
  position, last_of, init_of, fill_hole, swap_remove, rename_first,
}

contains-last_init :
    (x : ℕ) (xs : List ℕ) (a : ℕ)
    → (last_of x xs == a || contains (init_of x xs) a) ≡ (x == a || contains xs a)
unfolding last_of init_of
contains-last_init x [] a = refl
contains-last_init x (y ∷ ys) a = ground (arith, contains-last_init y ys a)

last_init-Distinct :
    (x : ℕ) (xs : List ℕ) → Distinct (x ∷ xs) → Distinct (last_of x xs ∷ init_of x xs)
unfolding last_of init_of
last_init-Distinct x [] d = d
last_init-Distinct x (y ∷ ys) d =
    ground (arith, last_init-Distinct y ys d.1, contains-last_init y ys x)

length-init_of : (x : ℕ) (xs : List ℕ) → length (init_of x xs) ≡ length xs
unfolding init_of
length-init_of x [] = refl
length-init_of x (y ∷ ys) = ap suc (length-init_of y ys)

contains-fill_hole : (xs : List ℕ) (a : ℕ) → contains (fill_hole xs) a ≡ contains xs a
unfolding fill_hole
contains-fill_hole [] a = refl
contains-fill_hole (x ∷ xs) a = contains-last_init x xs a

fill_hole-Distinct : (xs : List ℕ) → Distinct xs → Distinct (fill_hole xs)
unfolding fill_hole
fill_hole-Distinct [] d = tt
fill_hole-Distinct (x ∷ xs) d = last_init-Distinct x xs d

length-fill_hole : (xs : List ℕ) → length (fill_hole xs) ≡ length xs
unfolding fill_hole
length-fill_hole [] = refl
length-fill_hole (x ∷ xs) = ap suc (length-init_of x xs)

pub position-none : (xs : List ℕ) (a : ℕ) → position xs a ≡ none → contains xs a ≡ false
unfolding position
position-none [] a h = refl
position-none (x ∷ xs) a h = ground (arith, position-none xs a)

pub position-some : (xs : List ℕ) (a i : ℕ) → position xs a ≡ some i → contains xs a ≡ true
unfolding position
position-some [] a i h = ground arith
position-some (x ∷ xs) a zero h = ground arith
position-some (x ∷ xs) a (suc i) h = ground (arith, position-some xs a i)

-- Removing the position of `a` from a set without repetition takes out `a` alone.
pub contains-swap_remove :
    (xs : List ℕ) (a i b : ℕ)
    → Distinct xs
    → position xs a ≡ some i
    → contains (swap_remove xs i) b ≡ (if a == b then false else contains xs b)
unfolding position swap_remove
contains-swap_remove [] a i b d h = ground arith
contains-swap_remove (x ∷ xs) a zero b d h = ground (arith, contains-fill_hole xs b)
contains-swap_remove (x ∷ xs) a (suc i) b d h =
    ground (arith, contains-swap_remove xs a i b d.1, position-some xs a i)

pub length-swap_remove :
    (xs : List ℕ) (a i : ℕ) → position xs a ≡ some i → length (swap_remove xs i) + 1 ≡ length xs
unfolding position swap_remove
length-swap_remove [] a i h = ground arith
length-swap_remove (x ∷ xs) a zero h = ground (arith, length-fill_hole xs)
length-swap_remove (x ∷ xs) a (suc i) h = ground (arith, length-swap_remove xs a i)

pub swap_remove-Distinct :
    (xs : List ℕ) (a i : ℕ) → Distinct xs → position xs a ≡ some i → Distinct (swap_remove xs i)
unfolding position swap_remove
swap_remove-Distinct [] a i d h = tt
swap_remove-Distinct (x ∷ xs) a zero d h = fill_hole-Distinct xs d.1
swap_remove-Distinct (x ∷ xs) a (suc i) d h =
    ground (arith, swap_remove-Distinct xs a i d.1, contains-swap_remove xs a i x d.1)

-- A renamed set holds the new id in place of the old one.
pub contains-rename_first :
    (old_id new_id : ℕ) (xs : List ℕ) (a : ℕ)
    → Distinct xs
    → contains xs new_id ≡ false
    → contains (rename_first old_id new_id xs) a ≡ (
        if contains xs old_id
        then new_id == a || (not (old_id == a) && contains xs a)
        else contains xs a)
unfolding rename_first
contains-rename_first old_id new_id [] a d h = refl
contains-rename_first old_id new_id (x ∷ xs) a d h =
    ground (arith, contains-rename_first old_id new_id xs a d.1)

pub rename_first-Distinct :
    (old_id new_id : ℕ) (xs : List ℕ)
    → Distinct xs
    → contains xs new_id ≡ false
    → Distinct (rename_first old_id new_id xs)
unfolding rename_first
rename_first-Distinct old_id new_id [] d h = tt
rename_first-Distinct old_id new_id (x ∷ xs) d h = ground (
  arith,
  rename_first-Distinct old_id new_id xs d.1,
  contains-rename_first old_id new_id xs x d.1,
)

pub length-rename_first :
    (old_id new_id : ℕ) (xs : List ℕ) → length (rename_first old_id new_id xs) ≡ length xs
unfolding rename_first
length-rename_first old_id new_id [] = refl
length-rename_first old_id new_id (x ∷ xs) = ground (arith, length-rename_first old_id new_id xs)

pub append_one-Distinct :
    (xs : List ℕ) (a : ℕ) → Distinct xs → contains xs a ≡ false → Distinct (xs ++ a ∷ [])
append_one-Distinct [] a d h = (refl, tt)
append_one-Distinct (x ∷ xs) a d h =
    ground (arith, append_one-Distinct xs a d.1, contains-append xs (a ∷ []) x)
