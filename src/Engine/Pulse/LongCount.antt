-- ===== src/Engine/Pulse/LongCount.antt =====
-- src/native_dsp_graph.rs: `extend_pulse_long_count` against the least common multiple.
use Prim.Native.Nat.{◌∣◌}
use native.Mathlib.Nat
use freewheeling_plus.Prelude.{
  ℕ, zero, suc, ◌*◌, ◌/◌, ◌<◌, ◌≤◌, ◌≡◌, max, sym, subst, arith, Bool, true,
}
use freewheeling_plus.Prelude.Words.{u32_max}
use freewheeling_plus.Engine.Pulse.{PulseClock, gcd_u32, extend_pulse_long_count}
use freewheeling_plus.Engine.Pulse.Gcd.{gcd_u32_greatest, gcd_u32_pos}

-- What `saturating_div` by the divisor and the product give, without saturation.
unfoldable pub lcm_of : ℕ → ℕ → ℕ
lcm_of a b = a / gcd_u32 a b * b

module _ (a b : ℕ) (pos_b : 0 < b) where
  gcd-lcm_of : gcd_u32 a b * lcm_of a b ≡ a * b
  unfolding lcm_of
  gcd-lcm_of =
      rw (← Nat.mul_assoc) (rw (Nat.mul-div_cancel' (gcd_u32 a b) (gcd_u32_greatest a b pos_b).0))

  pub dvd-lcm_of_left : a ∣ lcm_of a b
  dvd-lcm_of_left = Nat.dvd_of_mul-dvd-mul_left a (gcd_u32_pos a b) (
      subst (λ n. gcd_u32 a b * a ∣ n) (sym gcd-lcm_of)
        (rw (Nat.mul_comm (gcd_u32 a b) a)
          (Nat.mul-dvd-mul_left (gcd_u32 a b) a (gcd_u32_greatest a b pos_b).1)))

  pub dvd-lcm_of_right : b ∣ lcm_of a b
  unfolding lcm_of
  dvd-lcm_of_right = Nat.dvd-mul_left b (a / gcd_u32 a b)

  pub lcm_of-dvd : (m : ℕ) → a ∣ m → b ∣ m → lcm_of a b ∣ m
  lcm_of-dvd m ha hb = Nat.dvd_of_mul-dvd-mul_left (lcm_of a b) (gcd_u32_pos a b) (
      rw gcd-lcm_of (
        (gcd_u32_greatest a b pos_b).2 (a * b) m (Nat.mul-dvd-mul_left b a hb)
          (rw (Nat.mul_comm a b) (Nat.mul-dvd-mul_left a b ha))))

lcm_of-pos : (a b : ℕ) → 0 < a → 0 < b → 0 < lcm_of a b
lcm_of-pos a b pos_a pos_b =
    let prod : 0 < a * b = grind arith in grind (arith, gcd-lcm_of a b pos_b)

le-lcm_of : (a b : ℕ) → 0 < a → 0 < b → a ≤ a / gcd_u32 a b * b
unfolding lcm_of
le-lcm_of a b pos_a pos_b = Nat.le_of_dvd (lcm_of-pos a b pos_a pos_b) (dvd-lcm_of_left a b pos_b)

length_eq :
    (c : PulseClock) (beats : ℕ) (end_justify : Bool)
    → c.pulse_sync_active ≡ true
    → 0 < beats
    → 0 < c.pulse_long_length
    → lcm_of c.pulse_long_length beats ≤ u32_max
    → (extend_pulse_long_count c beats end_justify).pulse_long_length
      ≡ lcm_of c.pulse_long_length beats
unfolding extend_pulse_long_count lcm_of
length_eq c beats end_justify active pos_b pos_l fits =
    rw (max_one c.pulse_long_length pos_l)
      (ground (arith, lcm_of-pos c.pulse_long_length beats pos_l pos_b))
  where
    max_one : (n : ℕ) → 0 < n → max n 1 ≡ n
    max_one n p = omega arith

-- With pulse sync on, `extend_pulse_long_count` by a loop of `beats` beats makes the long length a
-- multiple of the old length and of `beats`, and the least one: it divides every common multiple.
-- The old length must be positive, and the result fit `u32`.
pub extend_pulse_long_count-lcm :
    (c : PulseClock) (beats : ℕ) (end_justify : Bool)
    → c.pulse_sync_active ≡ true
    → 0 < beats
    → 0 < c.pulse_long_length
    → lcm_of c.pulse_long_length beats ≤ u32_max
    → (c.pulse_long_length ∣ (extend_pulse_long_count c beats end_justify).pulse_long_length)
      × (beats ∣ (extend_pulse_long_count c beats end_justify).pulse_long_length)
      × ((m : ℕ)
          → c.pulse_long_length ∣ m
          → beats ∣ m
          → (extend_pulse_long_count c beats end_justify).pulse_long_length ∣ m)
extend_pulse_long_count-lcm c beats end_justify active pos_b pos_l fits =
    rw (length_eq c beats end_justify active pos_b pos_l fits) (
      dvd-lcm_of_left c.pulse_long_length beats pos_b,
      dvd-lcm_of_right c.pulse_long_length beats pos_b,
      lcm_of-dvd c.pulse_long_length beats pos_b,
    )

-- The count stays below the length: also where the product saturates, and where the new cycle is
-- justified to its end.
pub extend_pulse_long_count-bounded :
    (c : PulseClock) (beats : ℕ) (end_justify : Bool)
    → c.pulse_long_count < c.pulse_long_length
    → c.pulse_long_length ≤ u32_max
    → ((extend_pulse_long_count c beats end_justify).pulse_long_count
        < (extend_pulse_long_count c beats end_justify).pulse_long_length)
      × ((extend_pulse_long_count c beats end_justify).pulse_long_length ≤ u32_max)
unfolding extend_pulse_long_count
extend_pulse_long_count-bounded c zero end_justify h l = ground arith
extend_pulse_long_count-bounded c (suc beats) end_justify h l =
    rw (max_one c.pulse_long_length (omega arith)) (
      ground (
        arith,
        le-lcm_of c.pulse_long_length (suc beats) (omega arith) (omega arith),
        Nat.mod-eq_of_lt h,
      ))
  where
    max_one : (n : ℕ) → 0 < n → max n 1 ≡ n
    max_one n p = omega arith

pub extend_pulse_long_count_keeps :
    (c : PulseClock) (beats : ℕ) (end_justify : Bool)
    → ((extend_pulse_long_count c beats end_justify).pulse_frames ≡ c.pulse_frames)
      × ((extend_pulse_long_count c beats end_justify).pulse_position ≡ c.pulse_position)
      × ((extend_pulse_long_count c beats end_justify).pulse_sync_active ≡ c.pulse_sync_active)
unfolding extend_pulse_long_count
extend_pulse_long_count_keeps c beats end_justify = ground arith
