-- ===== src/Devices/Ints.antt =====
-- Go's `int` of 64 bits, for devices/afpacket.go: what does not fit wraps around.
use zanarkand.Prelude.{
  ℕ, zero, suc, ◌+◌, ◌*◌, ◌-◌, ◌/◌, ◌%◌, ◌^◌, ◌<◌, ◌≡◌, refl, Bool, true, false, ltb, ltb-true,
  ◌==◌, eq_zero_false, if◌then◌else◌, arith,
}
use zanarkand.Prelude.Int.{ℤ, pos, negsuc}
use zanarkand.Frame.{signed64}
use zanarkand.Error.{Outcome, ok, panic}

-- The bits of an int, as a number.
bits : ℤ → ℕ
bits (pos n) = n % 2 ^ 64
bits (negsuc n) = 2 ^ 64 - 1 - n % 2 ^ 64

pub add_int : ℤ → ℤ → ℤ
unfolding bits
add_int a b = signed64 ((bits a + bits b) % 2 ^ 64)

pub mul_int : ℤ → ℤ → ℤ
unfolding bits
mul_int a b = signed64 ((bits a * bits b) % 2 ^ 64)

unfoldable pub lt_int : ℤ → ℤ → Bool
lt_int (pos a) (pos b) = ltb a b
lt_int (pos a) (negsuc b) = false
lt_int (negsuc a) (pos b) = true
lt_int (negsuc a) (negsuc b) = ltb b a

unfoldable pub is_zero : ℤ → Bool
is_zero (pos n) = n == 0
is_zero (negsuc n) = false

negated : ℕ → ℤ
negated zero = pos 0
negated (suc n) = negsuc n

-- Division goes towards 0, and panics on 0.
pub div_int : ℤ → ℤ → Outcome ℤ
unfolding negated
div_int (pos a) (pos b) = if b == 0 then panic else ok (pos (a / b))
div_int (pos a) (negsuc b) = ok (negated (a / suc b))
div_int (negsuc a) (pos b) = if b == 0 then panic else ok (negated (suc a / b))
div_int (negsuc a) (negsuc b) = ok (signed64 (suc a / suc b))

-- Between numbers whose result fits, these are the operations on the numbers.
pub add_int_pos : (a b : ℕ) → a + b < 2 ^ 63 → add_int (pos a) (pos b) ≡ pos (a + b)
unfolding add_int
add_int_pos a b h =
    let small_a : a % 2 ^ 64 ≡ a = omega arith in
    let small_b : b % 2 ^ 64 ≡ b = omega arith in
    let fits : (a + b) % 2 ^ 64 ≡ a + b = omega arith in
    rw small_a (rw small_b (rw fits (rw (ltb-true (a + b) (2 ^ 63) h) refl)))

pub mul_int_pos :
    (a b : ℕ) → a < 2 ^ 63 → b < 2 ^ 63 → a * b < 2 ^ 63 → mul_int (pos a) (pos b) ≡ pos (a * b)
unfolding mul_int
mul_int_pos a b ha hb h =
    let small_a : a % 2 ^ 64 ≡ a = omega arith in
    let small_b : b % 2 ^ 64 ≡ b = omega arith in
    let fits : a * b % 2 ^ 64 ≡ a * b = omega arith in
    rw small_a (rw small_b (rw fits (rw (ltb-true (a * b) (2 ^ 63) h) refl)))

pub div_int_pos : (a b : ℕ) → 0 < b → div_int (pos a) (pos b) ≡ ok (pos (a / b))
unfolding div_int
div_int_pos a b h = rw (eq_zero_false b h) refl
