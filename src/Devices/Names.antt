-- ===== src/Devices/Names.antt =====
-- devices/device.go: `ListDeviceNames` and `FindDeviceByName`. A Go string is its bytes.
use mathlib.Core.Option
use zanarkand.Prelude.{
  append-nil, ℕ, zero, suc, ◌≤◌, ◌≡◌, ◌⊎◌, inl, inr, refl, ap, ◌∙◌, Bool, true, false, ◌&&◌, Option,
  none, some, List, [], ◌∷◌, ◌++◌, map, ltb, if◌then◌else◌, length, get_elem?, arith,
}
use zanarkand.Prelude.Int.{ℤ, pos, negsuc}
use zanarkand.Prelude.Bytes.{Bytes}
use zanarkand.Prelude.Decimal.{atoi}
use zanarkand.Error.{
  no_device_name, device_list, index_out_of_bounds, text, wrapped, Outcome, ok, err, panic,
}

-- `pcap.Interface`, with the text of each address.
pub record Interface : Type 0 where
  pub name : Bytes
  pub description : Bytes
  pub addresses : List Bytes

no_description : Bytes
no_description =
    b'N' ∷ b'o' ∷ b' ' ∷ b'd' ∷ b'e' ∷ b's' ∷ b'c' ∷ b'r' ∷ b'i' ∷ b'p' ∷ b't' ∷ b'i' ∷ b'o' ∷ b'n'
    ∷ b' ' ∷ b'a' ∷ b'v' ∷ b'a' ∷ b'i' ∷ b'l' ∷ b'a' ∷ b'b' ∷ b'l' ∷ b'e' ∷ []

no_address : Bytes
no_address =
    b' ' ∷ b'[' ∷ b'N' ∷ b'o' ∷ b' ' ∷ b'a' ∷ b's' ∷ b's' ∷ b'i' ∷ b'g' ∷ b'n' ∷ b'e' ∷ b'd' ∷ b' '
    ∷ b'I' ∷ b'P' ∷ b' ' ∷ b'a' ∷ b'd' ∷ b'd' ∷ b'r' ∷ b'e' ∷ b's' ∷ b's' ∷ b']' ∷ []

-- The loop over the addresses, with a space before all but the first.
join_addresses : Bool → List Bytes → Bytes
join_addresses first [] = []
join_addresses first (a ∷ as_) = (if first then a else b' ' ∷ a) ++ join_addresses false as_

description_part : Interface → Bytes
description_part d =
    b':' ∷ b' ' ∷ (if ltb 0 (length d.description) then d.description else no_description)

address_part : Bytes → Bytes
address_part [] = no_address
address_part a = b' ' ∷ b'[' ∷ (a ++ (b']' ∷ []))

device_text : Bool → Bool → Interface → Bytes
device_text print_description print_ip d =
    d.name
    ++ ((if print_description then description_part d else [])
        ++ (if print_ip && ltb 0 (length d.addresses)
            then address_part (join_addresses true d.addresses)
            else []))

-- `ListDeviceNames`; the argument is what `pcap.FindAllDevs` answers.
list_device_names : Outcome (List Interface) → Bool → Bool → Outcome (List Bytes)
list_device_names (ok ds) print_description print_ip =
    ok (map (device_text print_description print_ip) ds)
list_device_names (err e) _ _ = err e
list_device_names panic _ _ = panic

in_range : List Bytes → ℕ → Option Bytes → Outcome Bytes
in_range ds n (some d) = ok d
in_range ds n none = err (text (index_out_of_bounds n (length ds)))

-- `devices[index]`, behind the test of the upper bound; a negative index panics.
pick_device : List Bytes → ℤ → Outcome Bytes
pick_device ds (negsuc k) = panic
pick_device ds (pos n) = in_range ds n (get_elem? ds n)

indexed : Outcome (List Bytes) → ℤ → Outcome Bytes
indexed (ok ds) i = pick_device ds i
indexed (err e) i = err (wrapped device_list e)
indexed panic i = panic

abbrev pub any_device : Bytes
any_device = b'a' ∷ b'n' ∷ b'y' ∷ []

by_number : Outcome (List Interface) → Bytes → Option ℤ → Outcome Bytes
by_number devs name (some i) = indexed (list_device_names devs false false) i
by_number devs name none = ok name

-- `FindDeviceByName`; `linux` is `deviceAnySupported`.
pub find_device_by_name : Bool → Outcome (List Interface) → Bytes → Outcome Bytes
find_device_by_name linux devs [] = if linux then ok any_device else err (text no_device_name)
find_device_by_name linux devs name = by_number devs name (atoi name)

plain_name : (d : Interface) → device_text false false d ≡ d.name
unfolding device_text
plain_name d = append-nil d.name

name_at :
    (ds : List Interface) (n : ℕ) (d : Interface)
    → get_elem? ds n ≡ some d
    → get_elem? (map (device_text false false) ds) n ≡ some d.name
name_at [] n d e = cc
name_at (x ∷ ds) zero d e = ap some (plain_name x) ∙ ap (Option.map (λ (i : Interface). i.name)) e
name_at (x ∷ ds) (suc n) d e = name_at ds n d e

past_end :
    (ds : List Interface) (n : ℕ)
    → length ds ≤ n
    → (get_elem? (map (device_text false false) ds) n ≡ none)
      × (length (map (device_text false false) ds) ≡ length ds)
past_end [] n h = (refl, refl)
past_end (x ∷ ds) zero h = absurd (omega arith)
past_end (x ∷ ds) (suc n) h = let (a, b) = past_end ds n (omega arith) in (a, ap suc b)

-- What becomes of a name that is not empty.
pub data Found (ds : List Interface) (name : Bytes) : Outcome Bytes → Type 0 where
  negative : (k : ℕ) → atoi name ≡ some (negsuc k) → Found ds name panic
  at_index :
      (n : ℕ) (d : Interface)
      → atoi name ≡ some (pos n)
      → get_elem? ds n ≡ some d
      → Found ds name (ok d.name)
  past_last :
      (n : ℕ)
      → atoi name ≡ some (pos n)
      → length ds ≤ n
      → Found ds name (err (text (index_out_of_bounds n (length ds))))
  no_number : atoi name ≡ none → Found ds name (ok name)

index-cases :
    (ds : List Interface) (n : ℕ) → ((d : Interface) × (get_elem? ds n ≡ some d)) ⊎ (length ds ≤ n)
index-cases [] n = inr (omega arith)
index-cases (x ∷ ds) zero = inl (x, refl)
index-cases (x ∷ ds) (suc n) = elim (index-cases ds n) [
  | inl (d, e) ↦ inl (d, e)
  | inr h ↦ inr (omega arith)
]

by_number-Found :
    (ds : List Interface) (name : Bytes) (o : Option ℤ)
    → atoi name ≡ o
    → Found ds name (by_number (ok ds) name o)
unfolding by_number indexed list_device_names pick_device in_range
by_number-Found ds name none e = no_number e
by_number-Found ds name (some (negsuc k)) e = negative k e
by_number-Found ds name (some (pos n)) e = elim (index-cases ds n) [
  | inl (d, g) ↦ rw (name_at ds n d g) (at_index n d e g)
  | inr h ↦ let (a, b) = past_end ds n h in rw a (rw b (past_last n e h))
]

-- For a name that is not empty, where the devices can be listed: a name that reads as a negative
-- number makes `FindDeviceByName` panic, whatever the devices are. One that reads as a number from
-- 0 on gives the name of the device at that place, or the error that the index is out of bounds;
-- one that is no number is returned as it is.
pub find_device_by_name_lem :
    (linux : Bool) (ds : List Interface) (c : ℕ) (cs : Bytes)
    → Found ds (c ∷ cs) (find_device_by_name linux (ok ds) (c ∷ cs))
unfolding find_device_by_name
find_device_by_name_lem linux ds c cs = by_number-Found ds (c ∷ cs) (atoi (c ∷ cs)) refl
