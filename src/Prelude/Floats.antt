-- ===== src/Prelude/Floats.antt =====
-- The arithmetic of `f32`, which the models take as a parameter: a type with the operations that
-- the code uses and, of their laws, the two that a proof relies on.
use Prim.Native.Nat.{ℕ, ◌≤◌, ◌+◌, ◌-◌, ◌*◌, ◌/◌, ◌^◌, min, max as maxℕ}
use native.Mathlib.Omega.{arith}
use mathlib.Core.Bool.{Bool}
use freewheeling_plus.Prelude.{ltb, leb, ◌==◌}
use freewheeling_plus.Prelude.Int.{ℤ, pos, pos_part}

pub record Float32 : Type 1 where
  pub F : Type 0
  -- `n as f32`, `z as f32`
  pub of_ℕ : ℕ → F
  pub of_ℤ : ℤ → F
  pub add : F → F → F
  pub sub : F → F → F
  pub mul : F → F → F
  pub div : F → F → F
  pub max : F → F → F
  pub lt : F → F → Bool
  pub le : F → F → Bool
  pub eq : F → F → Bool
  -- `powf`
  pub pow : F → F → F
  -- `x as u32` and `x as i32` saturate, and take a NaN to 0
  pub to_u32 : F → ℕ
  pub to_i32 : F → ℤ
  -- `x.max(1.0)` is at least one, also for a NaN, and so is its cast
  pub one-le-to_u32 : (x : F) → 1 ≤ to_u32 (max x (of_ℕ 1))
  -- a cast to `u32` stays in range
  pub to_u32-le : (x : F) → to_u32 x ≤ 4294967295

pub capped_one : (x : ℕ) → 1 ≤ min (maxℕ x 1) 4294967295
capped_one x = omega arith

pub capped : (x : ℕ) → min x 4294967295 ≤ 4294967295
capped x = omega arith

-- Whole numbers, as a type that has the operations and the laws.
abbrev pub whole_floats : Float32
whole_floats = record {
  F = ℕ;
  of_ℕ = λ n. n;
  of_ℤ = pos_part;
  add = λ x y. x + y;
  sub = λ x y. x - y;
  mul = λ x y. x * y;
  div = λ x y. x / y;
  max = maxℕ;
  lt = ltb;
  le = leb;
  eq = λ x y. x == y;
  pow = λ x y. x ^ y;
  to_u32 = λ x. min x 4294967295;
  to_i32 = λ x. pos (min x 2147483647);
  one-le-to_u32 = capped_one;
  to_u32-le = capped;
}
