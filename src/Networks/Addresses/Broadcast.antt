-- ===== src/Networks/Addresses/Broadcast.antt =====
-- `IP4BroadcastAddress` against the network and the host bits of a mask.
use Prim.Native.Nat.{bit_and, bit_or}
use aks_engine.Common.{
  ℕ, ◌-◌, ◌≤◌, ◌<◌, ◌≡◌, refl, Bool, true, ◌&&◌, some, List, [], ◌∷◌, length, holds_under,
  holds_under_lem, ltb, ◌==◌, nat_eq, arith,
}
use aks_engine.Networks.Addresses.First.{IsBytes}
use aks_engine.Networks.Addresses.{set_host_bits, to4, ip4_broadcast_address}

-- The byte of a broadcast address: the network bits are those of the address, the host bits are set.
abbrev IsBroadcastByte : ℕ → ℕ → ℕ → Type 0
IsBroadcastByte b m last = (bit_and last m ≡ bit_and b m) × (bit_or last m ≡ 255) × (last < 256)

abbrev is_broadcast_byte : ℕ → ℕ → Bool
is_broadcast_byte b m =
    let last = bit_or b (255 - m) in
    (bit_and last m == bit_and b m) && (bit_or last m == 255) && ltb last 256

broadcast_table : holds_under (λ b. holds_under (is_broadcast_byte b) 256) 256 ≡ true
unfolding holds_under
broadcast_table = refl

bit_or_complement : (b m : ℕ) → b < 256 → m < 256 → IsBroadcastByte b m (bit_or b (255 - m))
bit_or_complement b m hb hm = ground (
  arith,
  holds_under_lem (is_broadcast_byte b) 256
      (holds_under_lem (λ b. holds_under (is_broadcast_byte b) 256) 256 broadcast_table b hb) m hm,
)

abbrev pub IsBroadcast : List ℕ → List ℕ → List ℕ → Type 0
IsBroadcast [] mask [] = Unit
IsBroadcast (b ∷ bs) (m ∷ mask) (l ∷ last) = IsBroadcastByte b m l × IsBroadcast bs mask last
IsBroadcast _ mask last = ⊥

set_host_bits-IsBroadcast :
    (ip mask : List ℕ)
    → IsBytes ip
    → IsBytes mask
    → length ip ≤ length mask
    → (last : List ℕ) × (set_host_bits ip mask ≡ some last) × IsBroadcast ip mask last
unfolding set_host_bits
set_host_bits-IsBroadcast [] mask h k le = ([], refl, tt)
set_host_bits-IsBroadcast (b ∷ bs) [] h k le = absurd (omega arith)
set_host_bits-IsBroadcast (b ∷ bs) (m ∷ mask) h k le =
    let (last, e, done) = set_host_bits-IsBroadcast bs mask h.1 k.1 (omega arith) in
    (bit_or b (255 - m) ∷ last, rw e refl, (bit_or_complement b m h.0 k.0, done))

-- `IP4BroadcastAddress` of an IPv4 address, in either representation, with a mask that is long
-- enough: each byte of the result agrees with the address on the bits of the mask, and has all other
-- bits set.
pub ip4_broadcast_address-IsBroadcast :
    (ip ip4 mask : List ℕ)
    → to4 ip ≡ some ip4
    → IsBytes ip4
    → IsBytes mask
    → length ip4 ≤ length mask
    → (last : List ℕ) × (ip4_broadcast_address ip mask ≡ some (some last))
      × IsBroadcast ip4 mask last
unfolding ip4_broadcast_address
ip4_broadcast_address-IsBroadcast ip ip4 mask four h k le =
    let (last, e, done) = set_host_bits-IsBroadcast ip4 mask h k le in
    (last, rw (four, e) refl, done)
