-- ===== src/Frame/More.antt =====
-- `discardUntilValid` on a stream below which more follows.
use zanarkand.Prelude.{
  ℕ, zero, suc, ◌+◌, ◌≡◌, ◌≢◌, refl, sym, ap, ◌∙◌, Option, none, some, List, [], ◌∷◌, ◌++◌,
  Bool-cases, Option-cases, inl, inr, length, length-append, arith,
}
use zanarkand.Prelude.Int.{pos}
use zanarkand.Prelude.Bytes.{Bytes}
use zanarkand.Io.{IoError, Reader, Peeked, peek, discard}
use zanarkand.Io.View.{stream, flat}
use zanarkand.Io.More.{more, peek_more}
use zanarkand.Error.{Outcome, io, ok, err}
use zanarkand.Frame.{discard_until_valid, discard_loop, validate_magic, synced}

ok_err :
    {x : Option (Outcome Reader)} {a : Reader} {e : IoError}
    → x ≡ some (ok a)
    → x ≢ some (err (io e))
ok_err e k = cc

some_ok-injective : {a b : Reader} → some (ok a) ≡ some (ok b) → a ≡ b
some_ok-injective e = cc

none_ok : {a : Reader} → none ≢ some (ok a)
none_ok e = cc

length_flat-append :
    (xs ys : List Bytes) → length (flat (xs ++ ys)) ≡ length (flat xs) + length (flat ys)
length_flat-append [] ys = omega arith
length_flat-append (x ∷ xs) ys =
    omega (
      arith,
      length-append x (flat (xs ++ ys)),
      length-append x (flat xs),
      length_flat-append xs ys,
    )

module _ (ps : List Bytes) (e : IoError) where
  -- One round of the search, where more follows.
  round_more :
      (fuel : ℕ) (r : Reader)
      → (peek (pos 8) r).err ≡ none
      → discard_loop (suc fuel) (more r ps e)
        ≡ synced
            (record (peek (pos 8) r) { after = more (peek (pos 8) r).after ps e })
            none
            (validate_magic (peek (pos 8) r).bytes)
            (discard_loop fuel (more (discard 1 (peek (pos 8) r).after) ps e))
  unfolding discard_loop
  round_more fuel r h = rw (peek_more 8 r ps e h) (rw h refl)

  discard_loop_more :
      (fuel k : ℕ) (r a : Reader)
      → discard_loop fuel r ≡ some (ok a)
      → discard_loop (fuel + k) (more r ps e) ≡ some (ok (more a ps e))
  unfolding discard_loop synced
  discard_loop_more zero k r a h = absurd (none_ok h)
  discard_loop_more (suc fuel) k r a h =
      let p : Peeked = peek (pos 8) r in
      let n : suc fuel + k ≡ suc (fuel + k) = omega arith in
      ap (λ (m : ℕ). discard_loop m (more r ps e)) n ∙ elim (Option-cases p.err) [
        | inr (x, failed) ↦
            let bad : discard_loop (suc fuel) r ≡ some (err (io x)) = rw failed refl in
            absurd (ok_err h bad)
        | inl fine ↦ round_more (fuel + k) r fine ∙ elim (Bool-cases (validate_magic p.bytes)) [
          | inl good ↦
              let same : discard_loop (suc fuel) r ≡ some (ok p.after) = rw (fine, good) refl in
              rw good
                (ap (λ (x : Reader). some (ok (more x ps e))) (some_ok-injective (sym same ∙ h)))
          | inr bad ↦
              let same : discard_loop (suc fuel) r ≡ discard_loop fuel (discard 1 p.after) =
                rw (fine, bad) refl in
              rw bad (discard_loop_more fuel k (discard 1 p.after) a (sym same ∙ h))
        ]
      ]

  -- A search that has found a frame finds it where more follows.
  pub discard_until_valid-more :
      (r a : Reader)
      → discard_until_valid r ≡ some (ok a)
      → discard_until_valid (more r ps e) ≡ some (ok (more a ps e))
  unfolding discard_until_valid
  discard_until_valid-more r a h =
      let n : suc (length (stream (more r ps e))) ≡ suc (length (stream r)) + length (flat ps) =
        omega (
          arith,
          length-append r.buf (flat (r.rd ++ ps)),
          length-append r.buf (flat r.rd),
          length_flat-append r.rd ps,
        ) in
      ap (λ (m : ℕ). discard_loop m (more r ps e)) n
      ∙ discard_loop_more (suc (length (stream r))) (length (flat ps)) r a h
