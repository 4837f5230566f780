-- ===== src/Prelude/Bytes.antt =====
-- Byte strings as lists of numbers, and `binary.LittleEndian` on them.
use Prim.Native.Nat.{ℕ, zero, suc, ◌+◌, ◌-◌, ◌*◌, ◌/◌, ◌%◌, ◌^◌, ◌<◌}
use mathlib.Core.Logic.{◌↔◌}
use mathlib.Core.Path.{◌≡◌, refl, ap}
use mathlib.Core.List.{List, [], ◌∷◌}
use native.Mathlib.Omega.{arith}
use native.Mathlib.Nat.{pow-suc}
use mathlib.Core.Bool.{Bool, true, false, ◌&&◌}
use zanarkand.Prelude.Tests.{◌==◌}
use zanarkand.Prelude.Lists.{length, take, drop, All}

abbrev pub Bytes : Type 0
Bytes = List ℕ

abbrev pub IsByte : ℕ → Type 0
IsByte b = b < 256

-- Go's `==` on strings.
unfoldable pub same_text : Bytes → Bytes → Bool
same_text [] [] = true
same_text (a ∷ as_) (b ∷ bs) = let rest = same_text as_ bs in a == b && rest
same_text _ _ = false

pub same_text_iff : (p q : Bytes) → (same_text p q ≡ true) ↔ (p ≡ q)
unfolding same_text
same_text_iff [] [] = ground arith
same_text_iff [] (b ∷ bs) = ground arith
same_text_iff (a ∷ as_) [] = ground arith
same_text_iff (a ∷ as_) (b ∷ bs) = ground (arith, same_text_iff as_ bs)

-- `p[a:b]`, for bounds within the slice.
abbrev pub slice : ℕ → ℕ → Bytes → Bytes
slice a b p = take (b - a) (drop a p)

-- `Uint16`, `Uint32` and `Uint64`, by the length of the slice that they are given.
abbrev pub le : Bytes → ℕ
le [] = 0
le (b ∷ bs) = b + 256 * le bs

-- `PutUint16`, `PutUint32` and `PutUint64`: the `k` lowest bytes, lowest first.
abbrev pub le_bytes : ℕ → ℕ → Bytes
le_bytes zero n = []
le_bytes (suc k) n = n % 256 ∷ le_bytes k (n / 256)

pub length-le_bytes : (k n : ℕ) → length (le_bytes k n) ≡ k
length-le_bytes zero n = refl
length-le_bytes (suc k) n = ap suc (length-le_bytes k (n / 256))

pub le-le_bytes : (k n : ℕ) → n < 256 ^ k → le (le_bytes k n) ≡ n
le-le_bytes zero n h = omega arith
le-le_bytes (suc k) n h =
    let h' : n < 256 ^ k * 256 = rw pow-suc at h in
    omega (arith, le-le_bytes k (n / 256) (omega arith))

pub le-lt : (p : Bytes) → All IsByte p → le p < 256 ^ length p
le-lt [] h = omega arith
le-lt (b ∷ bs) h = rw pow-suc (omega (arith, le-lt bs h.1))
