-- ===== src/Io.antt =====
-- The parts of Go's `bufio.Reader` that frame.go, message.go, reassembler.go and sniffer.go use:
-- `NewReader`, `NewReaderSize`, `Peek`, `Discard` and `Read`.
-- The buffer's array is `used ++ buf ++ stale`: what has been read, what is buffered and not read,
-- and what lies behind it up to the capacity. It is kept whole, since a Go slice of the buffer can be
-- cut again up to its capacity.
pub mod View
pub mod Peek
pub mod Fill
pub mod More
pub mod Array
use zanarkand.Prelude.{
  ℕ, ◌+◌, ◌-◌, Bool, true, false, Option, none, some, List, [], ◌∷◌, ◌++◌, ltb, leb, ◌==◌,
  if◌then◌else◌, length, take, drop, replicate,
}
use zanarkand.Prelude.Int.{ℤ, pos, negsuc}
use zanarkand.Prelude.Bytes.{Bytes}

-- `io.EOF`, `bufio.ErrBufferFull`, `bufio.ErrNegativeCount`, and an error of another reader.
pub data IoError : Type 0 where
  eof buffer_full negative_count : IoError
  other : ℕ → IoError

-- `rd` is what the reader below has still to give, a list element for each of its reads, and `rd_err`
-- what it answers after that.
pub record Reader : Type 0 where
  pub used : Bytes
  pub buf : Bytes
  pub stale : Bytes
  pub rd : List Bytes
  pub rd_err : IoError

abbrev pub new_reader : ℕ → List Bytes → IoError → Reader
new_reader size rd e = record { used = []; buf = []; stale = replicate size 0; rd = rd; rd_err = e }

-- `len(b.buf)`, the size of the array.
abbrev pub size : Reader → ℕ
size r = length r.used + length r.buf + length r.stale

-- `copy(b.buf, b.buf[b.r:b.w])`
abbrev pub slide : Reader → Reader
slide r = record r { used = []; stale = drop (length r.buf) (r.used ++ r.buf ++ r.stale) }

-- `fill` until `n` bytes are buffered, the buffer is full, or the reader below ends. A read that is
-- longer than the room left leaves its rest behind.
pub fill_loop : ℕ → Reader → List Bytes → Reader
fill_loop n r [] = record r { rd = [] }
fill_loop n r (c ∷ cs) =
    let more =
      fill_loop n (record r { buf = r.buf ++ c; stale = drop (length c) r.stale; rd = cs }) cs in
    if leb n (length r.buf)
    then record r { rd = c ∷ cs }
    else if leb (length c) (length r.stale)
    then more
    else record r {
      buf = r.buf ++ take (length r.stale) c;
      stale = [];
      rd = drop (length r.stale) c ∷ cs;
    }

pub fill : ℕ → Reader → Reader
fill n r = if leb n (length r.buf) then r else fill_loop n (slide r) r.rd

-- What `Peek` returns: a slice, the array behind the slice, and an error; and the reader after it.
pub record Peeked : Type 0 where
  pub bytes : Bytes
  pub spare : Bytes
  pub err : Option IoError
  pub after : Reader

peek_at : ℕ → Reader → Peeked
peek_at n r =
    if ltb (size r) n
    then record { bytes = r.buf; spare = r.stale; err = some IoError.buffer_full; after = r }
    else if ltb (length r.buf) n
    then record { bytes = r.buf; spare = r.stale; err = some r.rd_err; after = r }
    else record { bytes = take n r.buf; spare = drop n r.buf ++ r.stale; err = none; after = r }

unfoldable pub peek : ℤ → Reader → Peeked
unfolding peek_at fill fill_loop
peek (pos n) r = peek_at n (fill n r)
peek (negsuc n) r = record { bytes = []; spare = []; err = some IoError.negative_count; after = r }

-- `Discard` of bytes that are buffered. The source discards only what it has just peeked at.
abbrev pub discard : ℕ → Reader → Reader
discard n r = record r { used = r.used ++ take n r.buf; buf = drop n r.buf }

-- What `Read` put into its argument, with its error.
pub record Filled : Type 0 where
  pub bytes : Bytes
  pub err : Option IoError
  pub after : Reader

abbrev copy_out : ℕ → Reader → Filled
copy_out n r = record { bytes = take n r.buf; err = none; after = discard n r }

rest_of : Bytes → List Bytes → List Bytes
rest_of [] cs = cs
rest_of c cs = c ∷ cs

-- The buffer is empty: one read below, past the buffer if `n` is at least its size.
read_below : ℕ → Reader → List Bytes → Filled
unfolding rest_of
read_below n r [] = record { bytes = []; err = some r.rd_err; after = r }
read_below n r (c ∷ cs) =
    if leb (size r) n
    then record { bytes = take n c; err = none; after = record r { rd = rest_of (drop n c) cs } }
    else copy_out n (record r {
      used = [];
      buf = take (size r) c;
      stale = drop (length c) (r.used ++ r.stale);
      rd = rest_of (drop (size r) c) cs;
    })

read_buf : ℕ → Reader → Bytes → Filled
unfolding read_below
read_buf n r [] = read_below n r r.rd
read_buf n r _ = copy_out n r

-- `Read` with a slice of `n` bytes. With `n` 0 it gives no error where something is buffered, and so it
-- is behind the `Peek` of a header.
unfoldable pub read : ℕ → Reader → Filled
unfolding read_buf
read n r = if n == 0 then record { bytes = []; err = none; after = r } else read_buf n r r.buf
