-- ===== src/Prelude/Words.antt =====
-- Rust's integer types: their bounds, saturation, and casts that keep the low bits.
use freewheeling_plus.Prelude.{ℕ, ◌+◌, ◌-◌, ◌*◌, ◌%◌, ◌/◌, ◌^◌, min, ltb, if◌then◌else◌}
use freewheeling_plus.Prelude.Int.{ℤ, pos, negsuc}

abbrev pub u32_max : ℕ
u32_max = 2 ^ 32 - 1

abbrev pub u64_max : ℕ
u64_max = 2 ^ 64 - 1

-- `usize` on the 64-bit targets.
abbrev pub usize_max : ℕ
usize_max = 2 ^ 64 - 1

-- `saturating_add` and `saturating_mul` of the type with the maximum `top`.
abbrev pub sat_add : ℕ → ℕ → ℕ → ℕ
sat_add top a b = min (a + b) top

abbrev pub sat_mul : ℕ → ℕ → ℕ → ℕ
sat_mul top a b = min (a * b) top

-- The low `w` bits of a two's complement integer, as an unsigned number.
abbrev pub low_bits_ℤ : ℕ → ℤ → ℕ
low_bits_ℤ w (pos n) = n % 2 ^ w
low_bits_ℤ w (negsuc n) = 2 ^ w - 1 - n % 2 ^ w

-- The 32 low bits, read as an `i32`: what release builds keep of a sum or product.
unfoldable pub wrap_i32 : ℤ → ℤ
wrap_i32 z = let u = low_bits_ℤ 32 z in if ltb u (2 ^ 31) then pos u else negsuc (2 ^ 32 - 1 - u)

-- `/` of signed integers rounds towards zero.
unfoldable pub div_ℤ : ℤ → ℕ → ℤ
div_ℤ (pos n) d = pos (n / d)
div_ℤ (negsuc n) d = let q = (n + 1) / d in if ltb 0 q then negsuc (q - 1) else pos 0
