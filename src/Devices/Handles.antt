-- ===== src/Devices/Handles.antt =====
-- devices/handle.go, pfring_linux.go and pfring_nonlinux.go: the opening of handles, and which are closed
-- again. What the capture libraries answer is an argument.
use zanarkand.Prelude.{◌≡◌, refl, Bool, true, false, Option, none, some, ◌⊎◌, inl, inr}
use zanarkand.Error.{Error, text, pf_only_linux, Outcome, ok, err, panic}

-- An attempt to open: what the function returns, whether the library gave a handle on the way, and
-- whether it was closed again.
pub record Attempt (H : Type 0) : Type 0 where
  pub result : Outcome H
  pub was_opened : Bool
  pub was_closed : Bool

-- No handle is lost: one that was given and is not returned has been closed.
abbrev pub IsClean : {H : Type 0} → Attempt H → Type 0
IsClean t = (t.was_opened ≡ false) ⊎ (t.was_closed ≡ true) ⊎ ((h : _) × (t.result ≡ ok h))

module _ {H : Type 0} where
  unfoldable pub not_opened : Error → Attempt H
  not_opened e = record { result = err e; was_opened = false; was_closed = false }

  -- Go panics in the library end the program.
  unfoldable pub gone : Attempt H
  gone = record { result = panic; was_opened = false; was_closed = false }

  -- A step on the handle that closes it where it fails.
  unfoldable pub or_close : Option Error → Attempt H → Attempt H
  or_close none next = next
  or_close (some e) next = record { result = err e; was_opened = true; was_closed = true }

  unfoldable pub kept : H → Attempt H
  kept h = record { result = ok h; was_opened = true; was_closed = false }

  -- `OpenPcap` and `OpenFile`: open the handle, set the filter.
  pub open_filtered : Outcome H → (H → Option Error) → Attempt H
  open_filtered (ok h) filter = or_close (filter h) (kept h)
  open_filtered (err e) filter = not_opened e
  open_filtered panic filter = gone

  -- `newPFRingHandle`: the ring, its poll duration, its socket mode, and its enabling.
  pub new_pf_ring :
      Outcome H → (H → Option Error) → (H → Option Error) → (H → Option Error) → Attempt H
  new_pf_ring (ok h) poll mode enable =
      or_close (poll h) (or_close (mode h) (or_close (enable h) (kept h)))
  new_pf_ring (err e) poll mode enable = not_opened e
  new_pf_ring panic poll mode enable = gone

  -- A function that opens a handle by another one, and then sets the filter.
  unfoldable pub then_filter : Attempt H → Outcome H → (H → Option Error) → Attempt H
  then_filter t (ok h) filter = or_close (filter h) t
  then_filter t _ filter = t

  -- `newPFRingHandle` of the other systems.
  no_pf_ring : Attempt H
  unfolding not_opened
  no_pf_ring = not_opened (text pf_only_linux)

  -- `OpenPFRing`
  pub open_pf_ring : Attempt H → (H → Option Error) → Attempt H
  open_pf_ring t filter = then_filter t t.result filter

  -- On the other systems no ring is ever opened.
  unopened : (filter : H → Option Error) → (open_pf_ring no_pf_ring filter).was_opened ≡ false
  unfolding open_pf_ring no_pf_ring not_opened then_filter
  unopened filter = refl

  or_close-IsClean : (o : Option Error) (t : Attempt H) → IsClean t → IsClean (or_close o t)
  unfolding or_close
  or_close-IsClean none t c = c
  or_close-IsClean (some e) t c = inr (inl refl)

  kept-IsClean : (h : H) → IsClean (kept h)
  unfolding kept
  kept-IsClean h = inr (inr (h, refl))

  then_filter-IsClean :
      (t : Attempt H) (o : Outcome H) (filter : H → Option Error)
      → IsClean t
      → IsClean (then_filter t o filter)
  unfolding then_filter
  then_filter-IsClean t (ok h) filter c = or_close-IsClean (filter h) t c
  then_filter-IsClean t (err e) filter c = c
  then_filter-IsClean t panic filter c = c

  new_pf_ring-IsClean :
      (opened : Outcome H) (poll mode enable : H → Option Error)
      → IsClean (new_pf_ring opened poll mode enable)
  unfolding new_pf_ring not_opened gone
  new_pf_ring-IsClean (ok h) poll mode enable =
      or_close-IsClean (poll h) _
        (or_close-IsClean (mode h) _ (or_close-IsClean (enable h) _ (kept-IsClean h)))
  new_pf_ring-IsClean (err e) poll mode enable = inl refl
  new_pf_ring-IsClean panic poll mode enable = inl refl

  open_filtered-IsClean :
      (opened : Outcome H) (filter : H → Option Error) → IsClean (open_filtered opened filter)
  unfolding open_filtered not_opened gone
  open_filtered-IsClean (ok h) filter = or_close-IsClean (filter h) _ (kept-IsClean h)
  open_filtered-IsClean (err e) filter = inl refl
  open_filtered-IsClean panic filter = inl refl

  -- A handle from `OpenPcap`, `OpenFile` or `OpenPFRing` is returned or closed, whichever of the steps
  -- on it fails.
  pub open-IsClean :
      (opened : Outcome H) (filter poll mode enable : H → Option Error)
      → IsClean (open_filtered opened filter)
        × IsClean (open_pf_ring (new_pf_ring opened poll mode enable) filter)
  unfolding open_pf_ring
  open-IsClean opened filter poll mode enable = (
    open_filtered-IsClean opened filter,
    then_filter-IsClean (new_pf_ring opened poll mode enable) _ filter
        (new_pf_ring-IsClean opened poll mode enable),
  )
