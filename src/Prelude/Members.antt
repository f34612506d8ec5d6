-- ===== src/Prelude/Members.antt =====
-- Lists of numbers as Rust's `Vec::contains`, `retain` and `HashSet` lookups see them, and
-- predicates on all elements of a list.
use Prim.Native.Nat.{ℕ, zero, suc, ◌≤◌, ◌<◌}
use mathlib.Core.Path.{◌≡◌, refl, subst}
use mathlib.Core.Bool.{Bool, false, ◌&&◌, ◌||◌}
use mathlib.Core.Option.{some, some-injective}
use mathlib.Core.List.{List, [], ◌∷◌, ◌++◌}
use native.Mathlib.Omega.{arith}
use freewheeling_plus.Prelude.Tests.{◌==◌, if◌then◌else◌}
use freewheeling_plus.Prelude.Lists.{length, get_elem?, set}

abbrev pub contains : List ℕ → ℕ → Bool
contains [] a = false
contains (x ∷ xs) a = x == a || contains xs a

abbrev pub retain {ℓ} : {A : Type ℓ} → (A → Bool) → List A → List A
retain p [] = []
retain p (x ∷ xs) = let rest = retain p xs in if p x then x ∷ rest else rest

-- No number stands twice.
abbrev pub Distinct : List ℕ → Type 0
Distinct [] = Unit
Distinct (x ∷ xs) = (contains xs x ≡ false) × Distinct xs

abbrev pub All {ℓ κ} : {A : Type ℓ} → (A → Type κ) → List A → Type κ
All P [] = Unit
All P (x ∷ xs) = P x × All P xs

pub contains-append :
    (xs ys : List ℕ) (a : ℕ) → contains (xs ++ ys) a ≡ (contains xs a || contains ys a)
contains-append [] ys a = refl
contains-append (x ∷ xs) ys a = ground (arith, contains-append xs ys a)

pub contains-retain :
    (p : ℕ → Bool) (xs : List ℕ) (a : ℕ) → contains (retain p xs) a ≡ (contains xs a && p a)
contains-retain p [] a = refl
contains-retain p (x ∷ xs) a = ground (arith, contains-retain p xs a)

pub length-retain-le {ℓ} :
    {A : Type ℓ} (p : A → Bool) (xs : List A) → length (retain p xs) ≤ length xs
length-retain-le p [] = omega arith
length-retain-le p (x ∷ xs) = ground (arith, length-retain-le p xs)

pub retain-Distinct : (p : ℕ → Bool) (xs : List ℕ) → Distinct xs → Distinct (retain p xs)
retain-Distinct p [] d = tt
retain-Distinct p (x ∷ xs) d = ground (arith, contains-retain p xs x, retain-Distinct p xs d.1)

pub All-append {ℓ κ} :
    {A : Type ℓ} (P : A → Type κ) (xs ys : List A) → All P xs → All P ys → All P (xs ++ ys)
All-append P [] ys a b = b
All-append P (x ∷ xs) ys a b = (a.0, All-append P xs ys a.1 b)

pub All-get {ℓ κ} :
    {A : Type ℓ} (P : A → Type κ) (xs : List A) (i : ℕ) (x : A)
    → All P xs
    → get_elem? xs i ≡ some x
    → P x
All-get P [] i x a e = absurd cc
All-get P (y ∷ ys) zero x a e = subst P (some-injective y x e) a.0
All-get P (y ∷ ys) (suc i) x a e = All-get P ys i x a.1 e

pub All-set {ℓ κ} :
    {A : Type ℓ} (P : A → Type κ) (xs : List A) (i : ℕ) (x : A)
    → All P xs
    → P x
    → All P (set xs i x)
All-set P [] i x a h = tt
All-set P (y ∷ ys) zero x a h = (h, a.1)
All-set P (y ∷ ys) (suc i) x a h = (a.0, All-set P ys i x a.1 h)

pub get_elem?-some {ℓ} :
    {A : Type ℓ} (xs : List A) (i : ℕ) → i < length xs → (x : A) × (get_elem? xs i ≡ some x)
get_elem?-some [] i h = elim h [ ]
get_elem?-some (x ∷ xs) zero h = (x, refl)
get_elem?-some (x ∷ xs) (suc i) h = get_elem?-some xs i (omega arith)

pub get_elem?-lt {ℓ} :
    {A : Type ℓ} (xs : List A) (i : ℕ) {x : A} → get_elem? xs i ≡ some x → i < length xs
get_elem?-lt [] i h = cc
get_elem?-lt (x ∷ xs) zero h = omega arith
get_elem?-lt (x ∷ xs) (suc i) h = omega (arith, get_elem?-lt xs i h)
