-- ===== src/Networks/Addresses/First.antt =====
-- `CidrFirstIP` on the number that the bytes of an address stand for.
use Prim.Native.Nat.{◌%◌, ◌^◌}
use native.Mathlib.Nat.{pow-suc, mod_self, mod-eq_of_lt}
use mathlib.Core.List.{reverse, reverse-append, reverse-reverse}
use aks_engine.Common.{
  ℕ, suc, ◌+◌, ◌*◌, ◌<◌, ◌≡◌, refl, List, [], ◌∷◌, ◌++◌, All-append, length-append, Bool-cases, inl,
  inr, ap, sym, ◌∙◌, length, All, ltb, if◌then◌else◌, ◌==◌, nat_eq, nat_beq_iff, arith,
}
use aks_engine.Networks.Addresses.{increment, cidr_first_ip}

-- The number that an address stands for.
unfoldable pub address : ℕ → List ℕ → ℕ
address high [] = high
address high (b ∷ bs) = address (high * 256 + b) bs

abbrev pub IsBytes : List ℕ → Type 0
IsBytes bs = All (λ b. b < 256) bs

-- The same from the least significant byte on.
value : List ℕ → ℕ
value [] = 0
value (b ∷ bs) = b + 256 * value bs

address-append :
    (high b : ℕ) (bs : List ℕ) → address high (bs ++ b ∷ []) ≡ address high bs * 256 + b
unfolding address
address-append high b [] = refl
address-append high b (c ∷ bs) = address-append (high * 256 + c) b bs

address-reverse : (bs : List ℕ) → address 0 (reverse bs) ≡ value bs
unfolding address value
address-reverse [] = refl
address-reverse (b ∷ bs) =
    ap (address 0) (reverse-append (b ∷ []) bs)
    ∙ omega (arith, address-append 0 b (reverse bs), address-reverse bs)

value-lt : (bs : List ℕ) → IsBytes bs → value bs < 256 ^ length bs
unfolding value
value-lt [] h = omega arith
value-lt (b ∷ bs) h = rw pow-suc (omega (arith, value-lt bs h.1, h.0))

-- One more, or zero after the largest number of the length.
abbrev pub next_number : ℕ → ℕ → ℕ
next_number bytes n = if n + 1 == 256 ^ bytes then 0 else n + 1

next_number-mod : (bytes n : ℕ) → n < 256 ^ bytes → next_number bytes n ≡ (n + 1) % 256 ^ bytes
next_number-mod bytes n h = elim (Bool-cases (n + 1 == 256 ^ bytes)) [
  | inl last ↦
      let e : n + 1 ≡ 256 ^ bytes = (nat_beq_iff (n + 1) (256 ^ bytes)).0 last in
      rw last (rw e (sym (mod_self (256 ^ bytes))))
  | inr inner ↦ rw inner (sym (mod-eq_of_lt (ground (arith, h, inner))))
]

-- A byte that does not wrap ends the carry.
carry :
    (b low rest p : ℕ)
    → b < 256
    → low < p
    → rest ≡ (if low + 1 == p then 0 else low + 1)
    → (if ltb 0 ((b + 1) % 256) then (b + 1) % 256 + 256 * low else (b + 1) % 256 + 256 * rest)
      ≡ (if b + 256 * low + 1 == p * 256 then 0 else b + 256 * low + 1)
carry b low rest p hb hl hr = ground (arith, hr)

value-increment :
    (bs : List ℕ)
    → IsBytes bs
    → (value (increment bs) ≡ next_number (length bs) (value bs))
      × IsBytes (increment bs)
      × (length (increment bs) ≡ length bs)
unfolding value increment
value-increment [] h = (refl, tt, refl)
value-increment (b ∷ bs) h =
    let (rest, bytes, size) = value-increment bs h.1 in
    elim (Bool-cases (ltb 0 ((b + 1) % 256))) [
      | inl t ↦ (
        rw (t, pow-suc)
            (rw t at (
              carry b (value bs) (value (increment bs)) (256 ^ length bs) h.0 (value-lt bs h.1)
                rest)),
        rw t (omega arith, h.1),
        rw t refl,
      )
      | inr f ↦ (
        rw (f, pow-suc)
            (rw f at (
              carry b (value bs) (value (increment bs)) (256 ^ length bs) h.0 (value-lt bs h.1)
                rest)),
        rw f (omega arith, bytes),
        rw f (ap suc size),
      )
    ]

IsBytes-append : (xs ys : List ℕ) → IsBytes xs → IsBytes ys → IsBytes (xs ++ ys)
IsBytes-append xs ys h k = All-append (λ b. b < 256) xs ys h k

IsBytes-reverse : (bs : List ℕ) → IsBytes bs → IsBytes (reverse bs)
IsBytes-reverse [] h = tt
IsBytes-reverse (b ∷ bs) h =
    rw (reverse-append (b ∷ []) bs)
      (IsBytes-append (reverse bs) (b ∷ []) (IsBytes-reverse bs h.1) (h.0, tt))

length-reverse : (bs : List ℕ) → length (reverse bs) ≡ length bs
length-reverse [] = refl
length-reverse (b ∷ bs) =
    rw (reverse-append (b ∷ []) bs)
      (omega (arith, length-append (reverse bs) (b ∷ []), length-reverse bs))

-- `CidrFirstIP` adds one to the number that the bytes of an address stand for, with wrap-around after
-- the largest one, and the result is an address of as many bytes.
pub address-cidr_first_ip :
    (ip : List ℕ)
    → IsBytes ip
    → (address 0 (cidr_first_ip ip) ≡ (address 0 ip + 1) % 256 ^ length ip)
      × IsBytes (cidr_first_ip ip)
      × (length (cidr_first_ip ip) ≡ length ip)
unfolding cidr_first_ip
address-cidr_first_ip ip h =
    let r = reverse ip in
    let bytes = IsBytes-reverse ip h in
    let (added, still, size) = value-increment r bytes in
    let before : address 0 ip ≡ value r =
      sym (ap (address 0) (reverse-reverse ip)) ∙ address-reverse r in
    let same : length r ≡ length ip = length-reverse ip in
    (
      address-reverse (increment r)
          ∙ added
          ∙ next_number-mod (length r) (value r) (value-lt r bytes)
          ∙ rw (before, same) refl,
      IsBytes-reverse (increment r) still,
      length-reverse (increment r) ∙ size ∙ same,
    )
