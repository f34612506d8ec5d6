-- ===== src/Prelude/Options.antt =====
-- Rust's `?` on options, for the modules whose `do` blocks chain options.
use mathlib.Core.Path.{◌≡◌, refl, sym, ◌∙◌}
use mathlib.Core.Logic.{inl, inr}
use mathlib.Core.Bool.{Bool, true}
use mathlib.Core.Option.{Option, none, some}
use freewheeling_plus.Prelude.Tests.{if◌then◌else◌, Bool-cases}

infixl 5 ◌>>=◌
abbrev pub ◌>>=◌ {ℓ κ} : {A : Type ℓ} {B : Type κ} → Option A → (A → Option B) → Option B
none >>= f = none
some a >>= f = f a

-- `Option::filter`.
abbrev pub keep_if {ℓ} : {A : Type ℓ} → (A → Bool) → Option A → Option A
keep_if p none = none
keep_if p (some a) = if p a then some a else none

-- `Option::unwrap_or`.
abbrev pub unwrap_or {ℓ} : {A : Type ℓ} → Option A → A → A
unwrap_or none d = d
unwrap_or (some a) d = a

pub keep_if-some {ℓ} :
    {A : Type ℓ} (p : A → Bool) (o : Option A) (x : A)
    → keep_if p o ≡ some x
    → (o ≡ some x) × (p x ≡ true)
keep_if-some p none x h = absurd cc
keep_if-some p (some y) x h = elim (Bool-cases (p y)) [
  | inl e ↦ (sym (rw e refl) ∙ h, cc)
  | inr e ↦ absurd cc
]
