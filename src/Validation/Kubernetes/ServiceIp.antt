-- ===== src/Validation/Kubernetes/ServiceIp.antt =====
-- What the checks of the address of the DNS service show.
use Prim.Native.Nat.{◌%◌, ◌^◌}
use aks_engine.Common.{
  ℕ, suc, ◌+◌, ◌*◌, ◌<◌, ◌≡◌, ◌≢◌, refl, sym, ap, ◌∙◌, true, false, not, some, List, [], ◌∷◌,
  length, nat_eq, ok, ◌>>◌, arith,
}
use aks_engine.Networks.Addresses.{to4, cidr_first_ip}
use aks_engine.Networks.Addresses.First.{address, IsBytes, address-cidr_first_ip}
use aks_engine.Networks.Addresses.Broadcast.{IsBroadcast, ip4_broadcast_address-IsBroadcast}
use aks_engine.Validation.{refuse_if, dns_outside_service_cidr, dns_is_broadcast, dns_is_first}
use aks_engine.Validation.Kubernetes.{bytes_equal, ip_equal, agrees, net_contains, check_dns_ip}

-- Addresses of one length that stand for the same number are the same.
address-injective :
    (h k : ℕ) (a b : List ℕ)
    → IsBytes a
    → IsBytes b
    → length a ≡ length b
    → address h a ≡ address k b
    → (h ≡ k) × (bytes_equal a b ≡ true)
unfolding address bytes_equal
address-injective h k [] [] ha hb size same = (same, refl)
address-injective h k [] (y ∷ ys) ha hb size same = absurd (omega (arith, size))
address-injective h k (x ∷ xs) [] ha hb size same = absurd (omega (arith, size))
address-injective h k (x ∷ xs) (y ∷ ys) ha hb size same =
    let (high, rest) =
      address-injective (h * 256 + x) (k * 256 + y) xs ys ha.1 hb.1 (omega (arith, size)) same in
    let x_lt : x < 256 = ha.0 in
    let y_lt : y < 256 = hb.0 in
    let low : x ≡ y = omega (arith, high, x_lt, y_lt) in
    (omega (arith, high, x_lt, y_lt), ground (arith, low, rest))

IsBroadcast-length : (ip mask last : List ℕ) → IsBroadcast ip mask last → length last ≡ length ip
IsBroadcast-length [] mask [] h = refl
IsBroadcast-length [] mask (l ∷ last) h = absurd h
IsBroadcast-length (b ∷ bs) [] last h = absurd h
IsBroadcast-length (b ∷ bs) (m ∷ mask) [] h = absurd h
IsBroadcast-length (b ∷ bs) (m ∷ mask) (l ∷ last) h = ap suc (IsBroadcast-length bs mask last h.1)

ip_equal-short :
    (a b d : List ℕ)
    → to4 a ≡ some d
    → length a ≡ 16
    → length b ≡ 4
    → (ip_equal a b ≡ bytes_equal d b) × (ip_equal b a ≡ bytes_equal d b)
unfolding ip_equal
ip_equal-short a b d four long short = (rw (long, short, four) refl, rw (long, short, four) refl)

-- An address of the DNS service that is an IPv4 address, with the network of the services: if the
-- check accepts it, it agrees with the network on the bits of the mask, it is not the broadcast
-- address of the network, and it is not the next address after that of the network, with wrap-around.
pub check_dns_ip-Usable :
    (dns d n mask : List ℕ)
    → to4 dns ≡ some d
    → length dns ≡ 16
    → length d ≡ 4
    → to4 n ≡ some n
    → length n ≡ 4
    → length mask ≡ 4
    → IsBytes d
    → IsBytes n
    → IsBytes mask
    → check_dns_ip dns (record { ip = n; mask = mask }) ≡ ok tt
    → (agrees n d mask ≡ true)
      × ((last : List ℕ) × IsBroadcast n mask last × (bytes_equal d last ≡ false))
      × (address 0 d ≢ (address 0 n + 1) % 256 ^ 4)
unfolding check_dns_ip net_contains
check_dns_ip-Usable dns d n mask four dns_size d_size network n_size mask_size hd hn hm passed =
    let (last, found, broadcast) =
      ip4_broadcast_address-IsBroadcast n n mask network hn hm (omega (arith, n_size, mask_size)) in
    let last_size = IsBroadcast-length n mask last broadcast ∙ n_size in
    let (next, bytes, same_size) = address-cidr_first_ip n hn in
    let first_size = same_size ∙ n_size in
    let outcome : (refuse_if (not (agrees n d mask)) dns_outside_service_cidr
          >> (refuse_if (bytes_equal d last) dns_is_broadcast
              >> refuse_if (bytes_equal d (cidr_first_ip n)) dns_is_first))
        ≡ ok tt =
      rw
        (
          network,
          four,
          found,
          (ip_equal-short dns last d four dns_size last_size).0,
          (ip_equal-short dns (cidr_first_ip n) d four dns_size first_size).1,
        )
        at passed in
    let inside : agrees n d mask ≡ true = ground (arith, outcome) in
    let other : bytes_equal d last ≡ false = ground (arith, outcome) in
    let later : bytes_equal d (cidr_first_ip n) ≡ false = ground (arith, outcome) in
    (
      inside,
      (last, broadcast, other),
      λ same.
          let sum : address 0 (cidr_first_ip n) ≡ (address 0 n + 1) % 256 ^ 4 =
            next ∙ ap (λ l. (address 0 n + 1) % 256 ^ l) n_size in
          let equal : bytes_equal d (cidr_first_ip n) ≡ true =
            (address-injective 0 0 d (cidr_first_ip n) hd bytes (d_size ∙ sym first_size)
              (same ∙ sym sum)).1 in
          absurd (cc (equal, later)),
    )
