-- ===== src/Prelude/Radix.antt =====
-- Numbers as text in a base, as `%d` and `%X` print them.
use Prim.Native.Nat.{ℕ, zero, suc, ◌+◌, ◌-◌, ◌*◌, ◌/◌, ◌%◌, ◌^◌, ◌<◌}
use mathlib.Core.Path.{◌≡◌, refl, ap, ◌∙◌}
use mathlib.Core.Bool.{◌&&◌}
use mathlib.Core.Logic.{inl, inr}
use mathlib.Core.Option.{Option, none, some}
use mathlib.Core.List.{[], ◌∷◌, ◌++◌}
use native.Mathlib.Omega.{arith}
use native.Mathlib.Nat.{pow-zero, pow-suc}
use zanarkand.Prelude.Tests.{ltb, leb, if◌then◌else◌, ltb-true, ltb-false, le_or_lt}
use zanarkand.Prelude.Bytes.{Bytes}

-- A base with its digits: `digit` writes one, `value` reads one.
pub record Radix : Type 0 where
  pub base : ℕ
  pub digit : ℕ → ℕ
  pub value : ℕ → Option ℕ

-- `value` reads what `digit` writes, and division by the base splits a number.
pub record IsRadix (r : Radix) : Type 0 where
  pub value-digit : (d : ℕ) → d < r.base → r.value (r.digit d) ≡ some d
  pub parts : (n : ℕ) → n / r.base * r.base + n % r.base ≡ n
  pub low : (n : ℕ) → n % r.base < r.base
  pub high : (k n : ℕ) → n < r.base ^ suc k → n / r.base < r.base ^ k

abbrev pub decimal : Radix
decimal = record {
  base = 10;
  digit = λ d. b'0' + d;
  value = λ c. if leb b'0' c && leb c b'9' then some (c - b'0') else none;
}

-- With capital letters.
abbrev pub hexadecimal : Radix
hexadecimal = record {
  base = 16;
  digit = λ d. if ltb d 10 then b'0' + d else b'A' + (d - 10);
  value = λ c.
      if leb b'0' c && leb c b'9'
      then some (c - b'0')
      else if leb b'A' c && leb c b'F'
      then some (c - b'A' + 10)
      else none;
}

pub decimal-IsRadix : IsRadix decimal
decimal-IsRadix = record {
  value-digit = λ d h. ground arith;
  parts = λ n. omega arith;
  low = λ n. omega arith;
  high = λ k n h. omega (arith, pow-suc 10 k);
}

pub hexadecimal-IsRadix : IsRadix hexadecimal
hexadecimal-IsRadix = record {
  value-digit = λ d h. ground arith;
  parts = λ n. omega arith;
  low = λ n. omega arith;
  high = λ k n h. omega (arith, pow-suc 16 k);
}

-- The digits of `n` in front of `acc`; `k` is a bound on how many there are.
unfoldable pub digits_of : Radix → ℕ → ℕ → Bytes → Bytes
digits_of r zero n acc = acc
digits_of r (suc k) n acc =
    let more = digits_of r k (n / r.base) (r.digit (n % r.base) ∷ acc) in
    if ltb n r.base then r.digit n ∷ acc else more

-- A number of at most 20 digits, which a 64-bit number never exceeds.
unfoldable pub show : Radix → ℕ → Bytes
unfolding digits_of
show r n = digits_of r 20 n []

-- The number at the front of a text, behind one that was read already, and what follows it.
pub scan : Radix → ℕ → Bytes → ℕ × Bytes
scan r acc [] = (acc, [])
scan r acc (c ∷ cs) = elim (r.value c) [
  | none ↦ (acc, c ∷ cs)
  | some d ↦ scan r (acc * r.base + d) cs
]

-- No digit stands at the front.
abbrev pub Stops : Radix → Bytes → Type 0
Stops r [] = Unit
Stops r (c ∷ cs) = r.value c ≡ none

pub scan-Stops : (r : Radix) (n : ℕ) (p : Bytes) → Stops r p → scan r n p ≡ (n, p)
unfolding scan
scan-Stops r n [] h = refl
scan-Stops r n (c ∷ cs) h = rw (h, scan) refl

scan_digit :
    (r : Radix) (n d : ℕ) (cs : Bytes)
    → IsRadix r
    → d < r.base
    → scan r n (r.digit d ∷ cs) ≡ scan r (n * r.base + d) cs
unfolding scan
scan_digit r n d cs is h = rw (is.value-digit d h, scan) refl

digits_of-append :
    (r : Radix) (k n : ℕ) (acc rest : Bytes)
    → digits_of r k n acc ++ rest ≡ digits_of r k n (acc ++ rest)
unfolding digits_of
digits_of-append r zero n acc rest = refl
digits_of-append r (suc k) n acc rest = elim (le_or_lt r.base n) [
  | inl more ↦ rw (ltb-false n r.base more) (digits_of-append r k (n / r.base) _ rest)
  | inr one ↦ rw (ltb-true n r.base one) refl
]

scan-digits_of :
    (r : Radix) (k n : ℕ) (acc : Bytes)
    → IsRadix r
    → n < r.base ^ k
    → scan r 0 (digits_of r k n acc) ≡ scan r n acc
unfolding digits_of
scan-digits_of r zero n acc is h = ap (λ (m : ℕ). scan r m acc) (omega (arith, pow-zero r.base))
scan-digits_of r (suc k) n acc is h = elim (le_or_lt r.base n) [
  | inl more ↦ rw (ltb-false n r.base more) (
      scan-digits_of r k (n / r.base) (r.digit (n % r.base) ∷ acc) is (is.high k n h)
      ∙ scan_digit r (n / r.base) (n % r.base) acc is (is.low n)
      ∙ ap (λ (m : ℕ). scan r m acc) (is.parts n))
  | inr one ↦
      rw (ltb-true n r.base one)
        (scan_digit r 0 n acc is one ∙ ap (λ (m : ℕ). scan r m acc) (omega arith))
]

-- A number below 2 ^ 64 is read back, and what follows it is left.
pub scan-show :
    (r : Radix) (n : ℕ) (rest : Bytes)
    → IsRadix r
    → n < r.base ^ 20
    → Stops r rest
    → scan r 0 (show r n ++ rest) ≡ (n, rest)
unfolding show
scan-show r n rest is h stops =
    ap (scan r 0) (digits_of-append r 20 n [] rest)
    ∙ scan-digits_of r 20 n rest is h
    ∙ scan-Stops r n rest stops
