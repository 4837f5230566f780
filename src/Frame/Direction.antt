-- ===== src/Frame/Direction.antt =====
-- `Frame.Direction` and `isPrivate`. A `net.IP` is its bytes: none for nil, 4, or 16. The tests of
-- package net are written out as they read such a slice.
use Prim.Native.Nat.{bit_and}
use zanarkand.Prelude.{
  ℕ, ◌≤◌, ◌≡◌, ◌↔◌, ◌⊎◌, Bool, true, false, not, ◌&&◌, ◌||◌, [], ◌∷◌, ◌++◌, ◌==◌, if◌then◌else◌,
  length, take, drop, replicate, get_elem?, none, some, arith,
}
use zanarkand.Prelude.Bytes.{Bytes, IsByte}
use zanarkand.Prelude.Bits.{mask_255, mask_240, mask_0}
use zanarkand.Frame.{Frame}

-- A flow direction: `neither` is the int 0, which has no name in the source.
pub data FlowDirection : Type 0 where
  neither ingress egress : FlowDirection

abbrev pub Ip : Type 0
Ip = Bytes

-- The form in which `net.ParseIP` returns an IPv4 address.
abbrev pub v4 : ℕ → ℕ → ℕ → ℕ → Ip
v4 a b c d = 0 ∷ 0 ∷ 0 ∷ 0 ∷ 0 ∷ 0 ∷ 0 ∷ 0 ∷ 0 ∷ 0 ∷ 255 ∷ 255 ∷ a ∷ b ∷ c ∷ d ∷ []

abbrev equal_bytes : Bytes → Bytes → Bool
equal_bytes [] [] = true
equal_bytes (x ∷ xs) (y ∷ ys) = x == y && equal_bytes xs ys
equal_bytes _ _ = false

abbrev byte_at : Bytes → ℕ → ℕ
byte_at p i = elim (get_elem? p i) [ none ↦ 0 | some b ↦ b ]

-- `To4`: the four bytes of an IPv4 address, none for any other.
abbrev pub to4 : Ip → Bytes
to4 ip =
    if length ip == 4
    then ip
    else if length ip == 16 && equal_bytes (take 12 ip) (replicate 10 0 ++ (255 ∷ 255 ∷ []))
    then drop 12 ip
    else []

abbrev pub is_loopback : Ip → Bool
is_loopback ip =
    if length (to4 ip) == 4
    then byte_at (to4 ip) 0 == 127
    else equal_bytes ip (replicate 15 0 ++ (1 ∷ []))

abbrev pub is_link_local_unicast : Ip → Bool
is_link_local_unicast ip =
    if length (to4 ip) == 4
    then byte_at (to4 ip) 0 == 169 && byte_at (to4 ip) 1 == 254
    else length ip == 16 && byte_at ip 0 == 0xfe && bit_and (byte_at ip 1) 0xc0 == 0x80

abbrev pub is_link_local_multicast : Ip → Bool
is_link_local_multicast ip =
    if length (to4 ip) == 4
    then byte_at (to4 ip) 0 == 224 && byte_at (to4 ip) 1 == 0 && byte_at (to4 ip) 2 == 0
    else length ip == 16 && byte_at ip 0 == 0xff && bit_and (byte_at ip 1) 0x0f == 0x02

-- A block of IPv4 addresses, as `net.ParseCIDR` returns it.
pub record Block : Type 0 where
  pub number : Bytes
  pub mask : Bytes

abbrev pub private_block10 : Block
private_block10 = record { number = 10 ∷ 0 ∷ 0 ∷ 0 ∷ []; mask = 255 ∷ 0 ∷ 0 ∷ 0 ∷ [] }

abbrev pub private_block172 : Block
private_block172 = record { number = 172 ∷ 16 ∷ 0 ∷ 0 ∷ []; mask = 255 ∷ 240 ∷ 0 ∷ 0 ∷ [] }

abbrev pub private_block192 : Block
private_block192 = record { number = 192 ∷ 168 ∷ 0 ∷ 0 ∷ []; mask = 255 ∷ 255 ∷ 0 ∷ 0 ∷ [] }

abbrev masked_equal : Bytes → Bytes → Bytes → Bool
masked_equal (n ∷ ns) (m ∷ ms) (x ∷ xs) = bit_and n m == bit_and x m && masked_equal ns ms xs
masked_equal _ _ _ = true

abbrev contains_bytes : Block → Bytes → Bool
contains_bytes b x = length x == length b.number && masked_equal b.number b.mask x

-- `IPNet.Contains`
abbrev pub contains : Block → Ip → Bool
contains b ip = contains_bytes b (if length (to4 ip) == 4 then to4 ip else ip)

unfoldable pub is_private : Ip → Bool
is_private ip =
    if is_loopback ip || is_link_local_unicast ip || is_link_local_multicast ip
    then true
    else contains private_block10 ip || contains private_block172 ip || contains private_block192 ip

-- The test of `Direction` on the parsed addresses.
unfoldable pub direction_of : Ip → Ip → FlowDirection
direction_of src dst =
    if is_private dst && not (is_private src)
    then ingress
    else if is_private src && not (is_private dst)
    then egress
    else neither

-- `Frame.Direction`. `src_ip` and `dst_ip` give what `net.ParseIP` makes of the texts of a flow's
-- endpoints.
unfoldable pub direction : {F : Type 0} → (F → Ip) → (F → Ip) → Frame F → FlowDirection
direction src_ip dst_ip f = direction_of (src_ip f.flow) (dst_ip f.flow)

-- The private IPv4 addresses: loopback, link-local, 10/8, 172.16/12 and 192.168/16.
abbrev pub IsPrivateV4 : ℕ → ℕ → ℕ → Type 0
IsPrivateV4 a b c =
    (a ≡ 127)
    ⊎ ((a ≡ 169) × (b ≡ 254))
    ⊎ ((a ≡ 224) × (b ≡ 0) × (c ≡ 0))
    ⊎ (a ≡ 10)
    ⊎ ((a ≡ 172) × (16 ≤ b) × (b ≤ 31))
    ⊎ ((a ≡ 192) × (b ≡ 168))

-- `isPrivate` holds of an IPv4 address exactly where it is loopback, link-local unicast or
-- multicast, or in 10/8, 172.16/12 or 192.168/16.
pub is_private_v4 :
    (a b c d : ℕ)
    → IsByte a
    → IsByte b
    → IsByte c
    → IsByte d
    → (is_private (v4 a b c d) ≡ true) ↔ IsPrivateV4 a b c
unfolding is_private
is_private_v4 a b c d ha hb hc hd =
    rw (mask_255 a ha, mask_255 b hb, mask_240 b hb, mask_0 b hb, mask_0 c hc, mask_0 d hd)
      (λ h. ground arith, λ h. ground arith)

abbrev pub flip : FlowDirection → FlowDirection
flip neither = neither
flip ingress = egress
flip egress = ingress

-- A frame that goes the other way has the other direction. It is inbound exactly where the
-- destination is private and the source is not, and has no direction exactly where both or none are.
direction_lem :
    {F : Type 0} (src_ip dst_ip : F → Ip) (f : Frame F)
    → (direction dst_ip src_ip f ≡ flip (direction src_ip dst_ip f))
      × ((direction src_ip dst_ip f ≡ ingress)
          ↔ ((is_private (dst_ip f.flow) ≡ true) × (is_private (src_ip f.flow) ≡ false)))
      × ((direction src_ip dst_ip f ≡ neither)
          ↔ (is_private (dst_ip f.flow) ≡ is_private (src_ip f.flow)))
unfolding direction direction_of
direction_lem src_ip dst_ip f =
    (ground arith, (λ h. ground arith, λ h. ground arith), (λ h. ground arith, λ h. ground arith))
