-- ===== src/Prelude/Decimal.antt =====
-- `strconv.Atoi` and `strconv.Itoa` on 64 bits. A Go string is its bytes.
use Prim.Native.Nat.{ℕ, zero, suc, ◌+◌, ◌-◌, ◌*◌, ◌/◌, ◌%◌, ◌^◌, ◌<◌}
use mathlib.Core.Path.{◌≡◌, refl, sym, ap, ◌∙◌}
use mathlib.Core.Bool.{Bool, true, false, ◌&&◌}
use mathlib.Core.Logic.{inl, inr}
use mathlib.Core.Option.{Option, none, some}
use mathlib.Core.List.{[], ◌∷◌}
use native.Mathlib.Omega.{arith}
use native.Mathlib.Nat.{pow-suc}
use zanarkand.Prelude.Tests.{ltb, leb, ◌==◌, if◌then◌else◌, ltb-true, leb-true, ltb-false, le_or_lt}
use zanarkand.Prelude.Int.{ℤ, pos, negsuc}
use zanarkand.Prelude.Bytes.{Bytes}
use zanarkand.Prelude.Radix.{decimal, digits_of, show}

is_digit : ℕ → Bool
is_digit c = leb b'0' c && leb c b'9'

digits : ℕ → Bytes → Option ℕ
digits n [] = some n
digits n (c ∷ cs) = let more = digits (n * 10 + (c - b'0')) cs in if is_digit c then more else none

-- A number below `limit`, from one digit or more.
number : ℕ → Bytes → Option ℕ
number limit [] = none
number limit cs = elim (digits 0 cs) [ none ↦ none | some n ↦ if ltb n limit then some n else none ]

negate : ℕ → ℤ
negate zero = pos 0
negate (suc n) = negsuc n

-- `strconv.Atoi` on 64 bits, which gives an error for a text that is no int.
unfoldable pub atoi : Bytes → Option ℤ
unfolding number digits is_digit negate
atoi [] = none
atoi (c ∷ cs) =
    if c == b'-'
    then elim (number (2 ^ 63 + 1) cs) [ none ↦ none | some n ↦ some (negate n) ]
    else elim (number (2 ^ 63) (if c == b'+' then cs else c ∷ cs)) [
      | none ↦ none
      | some n ↦ some (pos n)
    ]

-- `strconv.Itoa` of a number that is not negative.
abbrev pub itoa : ℕ → Bytes
itoa = show decimal

is_digit-true : (n : ℕ) → n < 10 → is_digit (b'0' + n) ≡ true
unfolding is_digit
is_digit-true n h =
    rw (leb-true 48 (48 + n) (omega arith)) (rw (leb-true (48 + n) 57 (omega arith)) refl)

-- Reading the digits goes on behind them with the number that they stand for.
digits-digits_of :
    (k n : ℕ) (acc : Bytes) → n < 10 ^ k → digits 0 (digits_of decimal k n acc) ≡ digits n acc
unfolding digits digits_of
digits-digits_of zero n acc h = ap (λ (m : ℕ). digits m acc) (omega arith)
digits-digits_of (suc k) n acc h =
    let h' : n < 10 ^ k * 10 = rw pow-suc at h in
    let last : is_digit (b'0' + n % 10) ≡ true = is_digit-true (n % 10) (omega arith) in
    let m : n / 10 * 10 + (b'0' + n % 10 - b'0') ≡ n = omega arith in
    elim (le_or_lt 10 n) [
      | inl more ↦ rw (ltb-false n 10 more) (
          digits-digits_of k (n / 10) ((b'0' + n % 10) ∷ acc) (omega arith)
          ∙ rw last (ap (λ (x : ℕ). digits x acc) m))
      | inr one ↦
          rw (ltb-true n 10 one)
            (rw (is_digit-true n one) (ap (λ (x : ℕ). digits x acc) (omega arith)))
    ]

-- The digits start with a digit.
record Starts (p : Bytes) : Type 0 where
  digit : ℕ
  rest : Bytes
  starts : p ≡ (b'0' + digit) ∷ rest
  is_small : digit < 10

digits_of-Starts :
    (k n : ℕ) (acc : Bytes) → n < 10 ^ suc k → Starts (digits_of decimal (suc k) n acc)
unfolding digits_of
digits_of-Starts zero n acc h =
    let one : n < 10 = omega arith in
    rw (ltb-true n 10 one) record { digit = n; rest = acc; starts = refl; is_small = one }
digits_of-Starts (suc k) n acc h =
    let h' : n < 10 ^ suc k * 10 = rw pow-suc at h in
    elim (le_or_lt 10 n) [
      | inl more ↦
          rw (ltb-false n 10 more)
            (digits_of-Starts k (n / 10) ((b'0' + n % 10) ∷ acc) (omega arith))
      | inr one ↦
          rw (ltb-true n 10 one) record { digit = n; rest = acc; starts = refl; is_small = one }
    ]

atoi-digits :
    (d n : ℕ) (cs : Bytes)
    → d < 10
    → n < 2 ^ 63
    → digits 0 ((b'0' + d) ∷ cs) ≡ some n
    → atoi ((b'0' + d) ∷ cs) ≡ some (pos n)
unfolding atoi number
atoi-digits d n cs hd hn e =
    let minus : ((b'0' + d) == b'-') ≡ false = ground arith in
    let plus : ((b'0' + d) == b'+') ≡ false = ground arith in
    rw minus (rw plus (rw e (rw (ltb-true n (2 ^ 63) hn) refl)))

-- A number below 2 ^ 63 reads back from its digits.
pub atoi-itoa : (n : ℕ) → n < 2 ^ 63 → atoi (itoa n) ≡ some (pos n)
unfolding show digits
atoi-itoa n h =
    let s : Starts (digits_of decimal 20 n []) = digits_of-Starts 19 n [] (omega arith) in
    let d : digits 0 ((b'0' + s.digit) ∷ s.rest) ≡ some n =
      ap (digits 0) (sym s.starts) ∙ digits-digits_of 20 n [] (omega arith) in
    ap atoi s.starts ∙ atoi-digits s.digit n s.rest s.is_small h d
