-- ===== src/Engine/Pulse/Gcd.antt =====
-- src/native_dsp_graph.rs: `gcd_u32` ends with the greatest common divisor.
use Prim.Native.Nat.{◌∣◌}
use mathlib.Core.WellFounded.{Acc}
use mathlib.Core.Logic.{dif_pos, dif_neg}
use native.Mathlib.Nat
use native.Mathlib.Bridge.{le_prop}
use freewheeling_plus.Prelude.Order.{lt_wf}
use freewheeling_plus.Prelude.{ℕ, ◌+◌, ◌*◌, ◌/◌, ◌%◌, ◌<◌, ◌≡◌, max, sym, subst, arith, dec_lt}
use freewheeling_plus.Engine.Pulse.{gcd_loop, gcd_u32}

zero_of_not_pos : (n : ℕ) → ¬ (0 < n) → n ≡ 0
zero_of_not_pos n h = omega arith

gcd_loop-dvd : (a b : ℕ) (w : Acc ◌<◌ b) → (gcd_loop a b w ∣ a) × (gcd_loop a b w ∣ b)
unfolding gcd_loop
gcd_loop-dvd a b (Acc.intro _ smaller) = elim (dec_lt 0 b) [
  | yes h ↦
      let ih = gcd_loop-dvd b (a % b) (smaller (a % b) (omega arith)) in
      rw (dif_pos (dec_lt 0 b) le_prop h) ((Nat.dvd-mod_iff _ ih.0).0 ih.1, ih.0)
  | no h ↦
      rw (dif_neg (dec_lt 0 b) h)
        (Nat.dvd_refl a, subst (λ n. a ∣ n) (sym (zero_of_not_pos b h)) (Nat.dvd-zero a))
]

-- Multiplied by any `c`, so that the least common multiple can use it.
dvd-gcd_loop : (k c a b : ℕ) (w : Acc ◌<◌ b) → k ∣ a * c → k ∣ b * c → k ∣ gcd_loop a b w * c
unfolding gcd_loop
dvd-gcd_loop k c a b (Acc.intro _ smaller) ha hb = elim (dec_lt 0 b) [
  | yes h ↦ rw (dif_pos (dec_lt 0 b) le_prop h) (
      dvd-gcd_loop k c b (a % b) (smaller (a % b) (omega arith)) hb (
        (Nat.dvd-add_iff_right k (Nat.dvd-mul_right_of_dvd k hb (a / b))).1
          (subst (λ n. k ∣ n) (split a b c) ha)))
  | no h ↦ rw (dif_neg (dec_lt 0 b) h) ha
]
  where
    split : (x y z : ℕ) → x * z ≡ y * z * (x / y) + x % y * z
    split x y z = rw (Nat.mul_right_comm y z, ← Nat.add-mul, Nat.div-add-mod)

gcd_loop-pos : (a b : ℕ) (w : Acc ◌<◌ b) → 0 < b → 0 < gcd_loop a b w
gcd_loop-pos a b w h = Nat.pos_of_dvd_of_pos (gcd_loop-dvd a b w).1 h

-- For a positive second argument `gcd_u32` divides both, and every number that divides both
-- multiples `a * c` and `b * c` divides its multiple by `c`: it is the greatest common divisor.
pub gcd_u32_greatest :
    (a b : ℕ)
    → 0 < b
    → (gcd_u32 a b ∣ a)
      × (gcd_u32 a b ∣ b)
      × ((k c : ℕ) → k ∣ a * c → k ∣ b * c → k ∣ gcd_u32 a b * c)
unfolding gcd_u32
gcd_u32_greatest a b h =
    rw (kept (gcd_loop a b (lt_wf.apply b)) (gcd_loop-pos a b (lt_wf.apply b) h)) (
      (gcd_loop-dvd a b (lt_wf.apply b)).0,
      (gcd_loop-dvd a b (lt_wf.apply b)).1,
      λ k c. dvd-gcd_loop k c a b (lt_wf.apply b),
    )
  where
    kept : (n : ℕ) → 0 < n → max n 1 ≡ n
    kept n p = omega arith

-- The result is never zero, as the divisions by it need.
pub gcd_u32_pos : (a b : ℕ) → 0 < gcd_u32 a b
unfolding gcd_u32
gcd_u32_pos a b = omega arith
