-- ===== src/Networks/Addresses.antt =====
-- pkg/api/common/net.go: `CidrFirstIP` and `IP4BroadcastAddress`. A net.IP is its list of bytes, the
-- most significant first.
pub mod First
pub mod Broadcast
use Prim.Native.Nat.{◌%◌, bit_or}
use mathlib.Core.List.{reverse}
use aks_engine.Common.{
  ℕ, zero, suc, ◌+◌, ◌-◌, Bool, true, false, ◌&&◌, Option, none, some, List, [], ◌∷◌, ◌++◌, ltb,
  if◌then◌else◌, ◌==◌, nat_eq,
}

-- cidr[j]++ wraps at 256, and the loop goes on to the next more significant byte while it does. The
-- list has the least significant byte first.
unfoldable pub increment : List ℕ → List ℕ
increment [] = []
increment (b ∷ bs) =
    let next = (b + 1) % 256 in
    let carry = increment bs in if ltb 0 next then next ∷ bs else next ∷ carry

unfoldable pub cidr_first_ip : List ℕ → List ℕ
unfolding increment
cidr_first_ip cidr = reverse (increment (reverse cidr))

-- ip.To4(): an address of four bytes, or an IPv4 address within one of sixteen.
unfoldable pub to4 : List ℕ → Option (List ℕ)
to4 (a ∷ b ∷ c ∷ d ∷ []) = some (a ∷ b ∷ c ∷ d ∷ [])
to4 (z0 ∷ z1 ∷ z2 ∷ z3 ∷ z4 ∷ z5 ∷ z6 ∷ z7 ∷ z8 ∷ z9 ∷ f0 ∷ f1 ∷ a ∷ b ∷ c ∷ d ∷ []) =
    if z0 + z1 + z2 + z3 + z4 + z5 + z6 + z7 + z8 + z9 == 0 && f0 == 255 && f1 == 255
    then some (a ∷ b ∷ c ∷ d ∷ [])
    else none
to4 _ = none

-- The loop last[i] |= ^n.Mask[i]; `none` is an index beyond the mask.
abbrev pub cons_some : ℕ → Option (List ℕ) → Option (List ℕ)
cons_some b none = none
cons_some b (some bs) = some (b ∷ bs)

unfoldable pub set_host_bits : List ℕ → List ℕ → Option (List ℕ)
set_host_bits [] mask = some []
set_host_bits (b ∷ bs) [] = none
set_host_bits (b ∷ bs) (m ∷ mask) = cons_some (bit_or b (255 - m)) (set_host_bits bs mask)

abbrev some_address : Option (List ℕ) → Option (Option (List ℕ))
some_address none = none
some_address (some last) = some (some last)

-- Beside a panic, the function returns nil for an address that is not IPv4.
abbrev broadcast_of : List ℕ → Option (List ℕ) → Option (Option (List ℕ))
broadcast_of mask none = some none
broadcast_of mask (some ip) = some_address (set_host_bits ip mask)

unfoldable pub ip4_broadcast_address : List ℕ → List ℕ → Option (Option (List ℕ))
unfolding to4 set_host_bits
ip4_broadcast_address ip mask = broadcast_of mask (to4 ip)
