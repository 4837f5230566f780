-- ===== src/Io/Fill.antt =====
-- `fill` on an empty buffer, and the size of a new reader.
use zanarkand.Io.View.{slide-Same}
use zanarkand.Prelude.{
  leb-true, leb-false, length-replicate, ℕ, ◌≤◌, ◌<◌, ◌≡◌, refl, ap, ◌∙◌, List, [], ◌∷◌, length,
  drop, arith,
}
use zanarkand.Io.{new_reader, IoError, Reader, size, slide, fill_loop, fill, peek}
use zanarkand.Prelude.Int.{pos}
use zanarkand.Prelude.Bytes.{Bytes}

pub fill_loop_done :
    (n : ℕ) (r : Reader) (cs : List Bytes)
    → n ≤ length r.buf
    → fill_loop n r cs ≡ record r { rd = cs }
unfolding fill_loop
fill_loop_done n r [] h = refl
fill_loop_done n r (c ∷ cs) h = rw (leb-true n (length r.buf) h)

-- A reader with the piece `c` as its buffer, and `cs` still to be read.
abbrev pub with_piece : Bytes → List Bytes → Reader → Reader
with_piece c cs r = record r { buf = c; stale = drop (length c) r.stale; rd = cs }

fill_loop_piece :
    (n : ℕ) (r : Reader) (c : Bytes) (cs : List Bytes)
    → r.buf ≡ []
    → 0 < n
    → n ≤ length c
    → length c ≤ length r.stale
    → fill_loop n r (c ∷ cs) ≡ with_piece c cs r
unfolding fill_loop
fill_loop_piece n r c cs e h0 h k = rw e (
    rw (leb-false n 0 h0)
      (rw (leb-true (length c) (length r.stale) k) (fill_loop_done n (with_piece c cs r) cs h)))

-- An empty buffer that is asked for some bytes takes the whole next piece, if it has room for it.
pub fill_piece :
    (n : ℕ) (r : Reader) (c : Bytes) (cs : List Bytes)
    → r.buf ≡ []
    → r.rd ≡ c ∷ cs
    → 0 < n
    → n ≤ length c
    → length c ≤ size r
    → fill n r ≡ with_piece c cs (slide r)
unfolding fill
fill_piece n r c cs e er h0 h k = rw (leb-false n (length r.buf) (omega (arith, ap length e))) (
    ap (λ (x : List Bytes). fill_loop n (slide r) x) er
    ∙ fill_loop_piece n (slide r) c cs e h0 h
        (omega (arith, ap length e, (slide-Same r).same_size)))

pub peek_after : (n : ℕ) (r : Reader) → (peek (pos n) r).after ≡ fill n r
unfolding peek
peek_after n r = ground arith

pub size-new : (n : ℕ) (pieces : List Bytes) (e : IoError) → size (new_reader n pieces e) ≡ n
size-new n pieces e = omega (arith, length-replicate {A = ℕ} n 0)
