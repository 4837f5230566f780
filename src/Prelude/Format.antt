-- ===== src/Prelude/Format.antt =====
-- `fmt.Sprintf` of texts and numbers, as far as the source prints them.
use Prim.Native.Char.{code}
use Prim.Native.String.{String}
use mathlib.Core.Path.{ap₂, ◌≡◌, refl, sym, ap, ◌∙◌}
use Prim.Native.Nat.{ℕ, suc, ◌^◌, ◌≤◌, ◌<◌}
use mathlib.Core.List.{List, [], ◌∷◌, ◌++◌, append_assoc}
use mathlib.Core.Logic.{◌≢◌}
use mathlib.Core.Option.{none}
use native.Mathlib.Omega.{arith}
use zanarkand.Prelude.Bytes.{Bytes}
use zanarkand.Prelude.Lists.{length, drop, All, drop-append_eq}
use zanarkand.Prelude.Int.{ℤ, pos, negsuc}
use zanarkand.Prelude.Radix.{
  Radix, IsRadix, decimal, decimal-IsRadix, show, digits_of, scan, Stops, scan-Stops, scan-show,
}

-- The bytes of a text in ASCII.
abbrev pub codes : String → Bytes
codes String.[] = []
codes (String.◌∷◌ c s) = code c ∷ codes s

-- The verbs for numbers, each with the text in front of it.
abbrev pub Format : Type 0
Format = List (Bytes × Radix)

-- A format with its numbers, and the text behind the last verb.
unfoldable pub sprintf : Format → List ℕ → Bytes → Bytes
sprintf [] ns tail = tail
sprintf (v ∷ f) [] tail = tail
sprintf ((label, r) ∷ f) (n ∷ ns) tail = label ++ (show r n ++ sprintf f ns tail)

pub sprintf-append :
    (f : Format) (ns : List ℕ) (tail rest : Bytes)
    → sprintf f ns tail ++ rest ≡ sprintf f ns (tail ++ rest)
unfolding sprintf
sprintf-append [] ns tail rest = refl
sprintf-append (v ∷ f) [] tail rest = refl
sprintf-append ((label, r) ∷ f) (n ∷ ns) tail rest =
    append_assoc label (show r n ++ sprintf f ns tail) rest
    ∙ ap (◌++◌ label) (
        append_assoc (show r n) (sprintf f ns tail) rest
        ∙ ap (◌++◌ (show r n)) (sprintf-append f ns tail rest))

-- A text that is not empty and starts with no digit.
abbrev pub IsBreak : Radix → Bytes → Type 0
IsBreak r [] = ⊥
IsBreak r (c ∷ cs) = r.value c ≡ none

-- The text behind a verb, up to the next one.
abbrev pub next_text : Format → Bytes → Bytes
next_text [] tail = tail
next_text ((label, r) ∷ f) tail = label

-- What follows a verb for a number starts with no digit of it.
abbrev pub IsFormat : Format → Bytes → Type 0
IsFormat [] tail = Unit
IsFormat ((label, r) ∷ f) tail =
    IsRadix r × (2 ^ 64 ≤ r.base ^ 20) × IsBreak r (next_text f tail) × IsFormat f tail

break-Stops : (r : Radix) (p rest : Bytes) → IsBreak r p → Stops r (p ++ rest)
break-Stops r [] rest h = elim h [ ]
break-Stops r (c ∷ cs) rest h = h

pub sprintf-Stops :
    (r : Radix) (f : Format) (ns : List ℕ) (tail rest : Bytes)
    → IsBreak r (next_text f tail)
    → length ns ≡ length f
    → Stops r (sprintf f ns (tail ++ rest))
unfolding sprintf
sprintf-Stops r [] ns tail rest h e = break-Stops r tail rest h
sprintf-Stops r (v ∷ f) [] tail rest h e = absurd (omega arith)
sprintf-Stops r ((label, s) ∷ f) (n ∷ ns) tail rest h e = break-Stops r label _ h

-- Behind the same text the same number was printed, with the same text behind it.
pub show-injective :
    (label : Bytes) (r : Radix) (n m : ℕ) (p q : Bytes)
    → IsRadix r
    → n < r.base ^ 20
    → m < r.base ^ 20
    → Stops r p
    → Stops r q
    → label ++ (show r n ++ p) ≡ label ++ (show r m ++ q)
    → (n ≡ m) × (p ≡ q)
show-injective label r n m p q is hn hm sp sq e =
    let same : show r n ++ p ≡ show r m ++ q =
      sym (drop-append_eq (length label) label (show r n ++ p) refl)
      ∙ ap (drop (length label)) e
      ∙ drop-append_eq (length label) label (show r m ++ q) refl in
    let both : (n, p) ≡ (m, q) =
      sym (scan-show r n p is hn sp) ∙ ap (scan r 0) same ∙ scan-show r m q is hm sq in
    (ap (λ (x : ℕ × Bytes). x.0) both, ap (λ (x : ℕ × Bytes). x.1) both)

-- The numbers of a text can be read off it.
pub sprintf-injective :
    (f : Format) (ns ms : List ℕ) (tail rest more : Bytes)
    → IsFormat f tail
    → length ns ≡ length f
    → length ms ≡ length f
    → All (λ (n : ℕ). n < 2 ^ 64) ns
    → All (λ (n : ℕ). n < 2 ^ 64) ms
    → sprintf f ns (tail ++ rest) ≡ sprintf f ms (tail ++ more)
    → (ns ≡ ms) × (rest ≡ more)
unfolding sprintf
sprintf-injective [] [] [] tail rest more is k l hn hm e = (
  refl,
  sym (drop-append_eq (length tail) tail rest refl)
      ∙ ap (drop (length tail)) e
      ∙ drop-append_eq (length tail) tail more refl,
)
sprintf-injective [] (n ∷ ns) ms tail rest more is k l hn hm e = absurd (omega arith)
sprintf-injective [] [] (m ∷ ms) tail rest more is k l hn hm e = absurd (omega arith)
sprintf-injective (v ∷ f) [] ms tail rest more is k l hn hm e = absurd (omega arith)
sprintf-injective (v ∷ f) (n ∷ ns) [] tail rest more is k l hn hm e = absurd (omega arith)
sprintf-injective ((label, r) ∷ f) (n ∷ ns) (m ∷ ms) tail rest more (is, big, stops, fs) k l
      (hn, hns) (hm, hms) e =
    let (same, later) =
      show-injective label r n m _ _ is (omega arith) (omega arith)
        (sprintf-Stops r f ns tail rest stops (omega arith))
        (sprintf-Stops r f ms tail more stops (omega arith)) e in
    let (all, behind) =
      sprintf-injective f ns ms tail rest more fs (omega arith) (omega arith) hns hms later in
    (ap₂ ◌∷◌ same all, behind)

-- `%d` of a signed number.
unfoldable pub show_int : ℤ → Bytes
show_int (pos n) = show decimal n
show_int (negsuc n) = b'-' ∷ show decimal (suc n)

-- A signed number of at most 64 bits.
abbrev pub FitsInt : ℤ → Type 0
FitsInt (pos n) = n < 2 ^ 64
FitsInt (negsuc n) = n < 2 ^ 63

-- A number and the text behind it can be read off.
scan-injective :
    (n m : ℕ) (p q : Bytes)
    → n < 2 ^ 64
    → m < 2 ^ 64
    → Stops decimal p
    → Stops decimal q
    → show decimal n ++ p ≡ show decimal m ++ q
    → (n ≡ m) × (p ≡ q)
scan-injective n m p q hn hm sp sq e =
    show-injective [] decimal n m p q decimal-IsRadix (omega arith) (omega arith) sp sq e

-- No number starts with a sign.
unsigned : (n : ℕ) (p q : Bytes) → n < 2 ^ 64 → Stops decimal p → show decimal n ++ p ≢ b'-' ∷ q
unfolding show digits_of
unsigned n p q h sp e =
    let read : (n, p) ≡ (0, b'-' ∷ q) =
      sym (scan-show decimal n p decimal-IsRadix (omega arith) sp)
      ∙ ap (scan decimal 0) e
      ∙ scan-Stops decimal 0 (b'-' ∷ q) refl in
    let bad : b'0' ∷ p ≡ b'-' ∷ q =
      ap (λ (m : ℕ). show decimal m ++ p) (sym (ap (λ (x : ℕ × Bytes). x.0) read)) ∙ e in
    let first : ◌≡◌ {A = ℕ} b'0' b'-' = ap (λ (b : Bytes). elim b [ [] ↦ 0 | ◌∷◌ c cs ↦ c ]) bad in
    omega (arith, first)

pub show_int-injective :
    (z w : ℤ) (p q : Bytes)
    → FitsInt z
    → FitsInt w
    → Stops decimal p
    → Stops decimal q
    → show_int z ++ p ≡ show_int w ++ q
    → (z ≡ w) × (p ≡ q)
unfolding show_int
show_int-injective (pos n) (pos m) p q f g sp sq e =
    let (same, behind) = scan-injective n m p q f g sp sq e in (ap pos same, behind)
show_int-injective (pos n) (negsuc m) p q f g sp sq e = absurd (unsigned n p _ f sp e)
show_int-injective (negsuc n) (pos m) p q f g sp sq e = absurd (unsigned m q _ g sq (sym e))
show_int-injective (negsuc n) (negsuc m) p q f g sp sq e =
    let (same, behind) =
      scan-injective (suc n) (suc m) p q (omega arith) (omega arith) sp sq (ap (drop 1) e) in
    (ap negsuc (omega (arith, same)), behind)
