-- ===== src/Upgrade/Indices/Free.antt =====
-- The indices that `getAvailableIndex` and the loop over the masters choose are free, and are the
-- least free ones.
use aks_engine.Common.{
  ℕ, zero, suc, ◌+◌, ◌≤◌, ◌<◌, ◌≡◌, refl, sym, ◌∙◌, ◌⊎◌, Bool, true, false, Option, none, some,
  List, [], ◌∷◌, arith, Bool-cases, inl, inr, ltb, if◌then◌else◌, ◌==◌, nat_eq, nat_beq_iff,
}
use mathlib.Core.Path.{subst}
use mathlib.Core.Bool.{false≢true}
use aks_engine.Upgrade.Indices.{
  max_index, has_index, first_gap, gap_or, get_available_index, is_marked, first_unmarked,
  master_index_to_create,
}

module _ {ℓ} {V : Type ℓ} where
  max_index_grows : (m : ℕ) (vms : List (ℕ × V)) → m ≤ max_index m vms
  unfolding max_index
  max_index_grows m [] = omega arith
  max_index_grows m ((i, v) ∷ vms) = ground (arith, max_index_grows (if ltb m i then i else m) vms)

  -- No index lies above the largest.
  has_index-le : (m i : ℕ) (vms : List (ℕ × V)) → has_index i vms ≡ true → i ≤ max_index m vms
  unfolding max_index
  has_index-le m i [] h = cc
  has_index-le m i ((j, v) ∷ vms) h = elim (Bool-cases (j == i)) [
    | inl t ↦ ground (arith, max_index_grows (if ltb m j then j else m) vms, nat_beq_iff j i, t)
    | inr f ↦ has_index-le (if ltb m j then j else m) i vms (ground (arith, f, h))
  ]

  -- From 0 on, the largest index is 0 or an index of the map.
  max_index_source :
      (m : ℕ) (vms : List (ℕ × V))
      → (max_index m vms ≡ m) ⊎ (has_index (max_index m vms) vms ≡ true)
  unfolding max_index
  max_index_source m [] = inl refl
  max_index_source m ((j, v) ∷ vms) =
      let n = if ltb m j then j else m in
      let r = max_index n vms in
      ground (arith, max_index_source n vms, nat_beq_iff j r, max_index_grows n vms)

  -- What the search for a gap finds.
  abbrev GapFrom : ℕ → ℕ → List (ℕ × V) → Option ℕ → Type 0
  GapFrom rounds i vms (some r) =
      (has_index r vms ≡ false)
      × (i ≤ r)
      × (r < i + rounds)
      × ((j : ℕ) → i ≤ j → j < r → has_index j vms ≡ true)
  GapFrom rounds i vms none = (j : ℕ) → i ≤ j → j < i + rounds → has_index j vms ≡ true

  GapFrom-later :
      (rounds i : ℕ) (vms : List (ℕ × V)) (o : Option ℕ)
      → has_index i vms ≡ true
      → GapFrom rounds (i + 1) vms o
      → GapFrom (suc rounds) i vms o
  GapFrom-later rounds i vms (some r) t g = (
    g.0,
    omega arith,
    omega arith,
    λ j p q. elim (Bool-cases (i == j)) [
      | inl e ↦ subst (λ k. has_index k vms ≡ true) ((nat_beq_iff i j).0 e) t
      | inr f ↦ g.3 j (ground (arith, f, p)) q
    ],
  )
  GapFrom-later rounds i vms none t g = λ j p q. elim (Bool-cases (i == j)) [
    | inl e ↦ subst (λ k. has_index k vms ≡ true) ((nat_beq_iff i j).0 e) t
    | inr f ↦ g j (ground (arith, f, p)) (omega arith)
  ]

  first_gap-GapFrom :
      (rounds i : ℕ) (vms : List (ℕ × V)) → GapFrom rounds i vms (first_gap rounds i vms)
  unfolding first_gap
  first_gap-GapFrom zero i vms = λ j p q. absurd (omega arith)
  first_gap-GapFrom (suc rounds) i vms = elim (Bool-cases (has_index i vms)) [
    | inl t ↦
        let later : first_gap rounds (i + 1) vms ≡ first_gap (suc rounds) i vms =
          ground (arith, t) in
        subst (GapFrom (suc rounds) i vms) later (
          GapFrom-later rounds i vms (first_gap rounds (i + 1) vms) t
            (first_gap-GapFrom rounds (i + 1) vms))
    | inr f ↦
        let here : some i ≡ first_gap (suc rounds) i vms = ground (arith, f) in
        subst (GapFrom (suc rounds) i vms) here
          (f, omega arith, omega arith, λ j p q. absurd (omega arith))
  ]

  -- Above the largest index there is none.
  above-free : (vms : List (ℕ × V)) → has_index (max_index 0 vms + 1) vms ≡ false
  above-free vms = elim (Bool-cases (has_index (max_index 0 vms + 1) vms)) [
    | inl t ↦ absurd (omega (arith, has_index-le 0 (max_index 0 vms + 1) vms t))
    | inr f ↦ f
  ]

  gap_or-free :
      (vms : List (ℕ × V)) (o : Option ℕ)
      → GapFrom (max_index 0 vms) 0 vms o
      → has_index (gap_or o (max_index 0 vms + 1)) vms ≡ false
  gap_or-free vms (some r) g = g.0
  gap_or-free vms none g = above-free vms

  first_index-le : (i : ℕ) (v : V) (vms : List (ℕ × V)) → has_index i ((i, v) ∷ vms) ≡ true
  first_index-le i v vms = ground (arith, nat_beq_iff i i)

  -- If there is any index, the largest is one.
  top-has_index : (vms : List (ℕ × V)) → (has_index (max_index 0 vms) vms ≡ true) ⊎ (vms ≡ [])
  top-has_index [] = inr refl
  top-has_index ((i, v) ∷ vms) = inl (elim (max_index_source 0 ((i, v) ∷ vms)) [
    | inl z ↦
        let there : has_index i ((i, v) ∷ vms) ≡ true = first_index-le i v vms in
        let e : i ≡ max_index 0 ((i, v) ∷ vms) =
          omega (arith, has_index-le 0 i ((i, v) ∷ vms) there, z) in
        subst (λ k. has_index k ((i, v) ∷ vms) ≡ true) e there
    | inr h ↦ h
  ])

  gap_or-least :
      (vms : List (ℕ × V)) (o : Option ℕ) (j : ℕ)
      → GapFrom (max_index 0 vms) 0 vms o
      → j < gap_or o (max_index 0 vms + 1)
      → (has_index j vms ≡ true) ⊎ (vms ≡ [])
  gap_or-least vms (some r) j g b = inl (g.3 j (omega arith) b)
  gap_or-least vms none j g b = elim (Bool-cases (ltb j (max_index 0 vms))) [
    | inl t ↦ inl (g j (omega arith) (ground (arith, t)))
    | inr f ↦
        let e : max_index 0 vms ≡ j = ground (arith, f, b) in
        subst (λ i. (has_index i vms ≡ true) ⊎ (vms ≡ [])) e (top-has_index vms)
  ]

  -- `getAvailableIndex` returns an index that no machine of the pool has. In a pool with machines
  -- it is the least such index: every index below it is that of a machine.
  pub get_available_index_least_free :
      (vms : List (ℕ × V))
      → (has_index (get_available_index vms) vms ≡ false)
        × ((j : ℕ) → j < get_available_index vms → (has_index j vms ≡ true) ⊎ (vms ≡ []))
  unfolding get_available_index
  get_available_index_least_free vms =
      let m = max_index 0 vms in
      let gap = first_gap-GapFrom m 0 vms in
      (
        gap_or-free vms (first_gap m 0 vms) gap,
        λ j below. gap_or-least vms (first_gap m 0 vms) j gap below,
      )

marked-has_index : (i : ℕ) (m : List (ℕ × Bool)) → is_marked i m ≡ true → has_index i m ≡ true
marked-has_index i m h = ground arith

-- Where the search over the masters stops.
abbrev StopsAt : ℕ → ℕ → List (ℕ × Bool) → ℕ → Type 0
StopsAt fuel i m r =
    (i ≤ r)
    × (r ≤ i + fuel)
    × (r < i + fuel → is_marked r m ≡ false)
    × ((j : ℕ) → i ≤ j → j < r → is_marked j m ≡ true)

StopsAt-later :
    (fuel i : ℕ) (m : List (ℕ × Bool)) (r : ℕ)
    → is_marked i m ≡ true
    → StopsAt fuel (i + 1) m r
    → StopsAt (suc fuel) i m r
StopsAt-later fuel i m r t s = (
  omega arith,
  omega arith,
  λ l. s.2 (omega arith),
  λ j p q. elim (Bool-cases (i == j)) [
    | inl e ↦ subst (λ k. is_marked k m ≡ true) ((nat_beq_iff i j).0 e) t
    | inr f ↦ s.3 j (ground (arith, f, p)) q
  ],
)

first_unmarked-StopsAt :
    (fuel i : ℕ) (m : List (ℕ × Bool)) → StopsAt fuel i m (first_unmarked fuel i m)
unfolding first_unmarked
first_unmarked-StopsAt zero i m =
    (omega arith, omega arith, λ h. absurd (omega arith), λ j p q. absurd (omega arith))
first_unmarked-StopsAt (suc fuel) i m = elim (Bool-cases (is_marked i m)) [
  | inl t ↦ subst (StopsAt (suc fuel) i m) (ground (arith, t)) (
      StopsAt-later fuel i m (first_unmarked fuel (i + 1) m) t
        (first_unmarked-StopsAt fuel (i + 1) m))
  | inr f ↦
      subst (StopsAt (suc fuel) i m) (ground (arith, f))
        (omega arith, omega arith, λ _. f, λ j p q. absurd (omega arith))
]

-- The search for the index of a missing master ends, with the fuel that the model gives it, at an
-- index that is not upgraded, and every index below is upgraded.
pub master_index_to_create_least :
    (m : List (ℕ × Bool))
    → (is_marked (master_index_to_create m) m ≡ false)
      × ((j : ℕ) → j < master_index_to_create m → is_marked j m ≡ true)
unfolding master_index_to_create
master_index_to_create_least m =
    let r = first_unmarked (max_index 0 m + 2) 0 m in
    let (from, upto, free, below) = first_unmarked-StopsAt (max_index 0 m + 2) 0 m in
    (
      elim (Bool-cases (is_marked (max_index 0 m + 1) m)) [
        | inl t ↦ absurd (
            omega (
              arith,
              has_index-le 0 (max_index 0 m + 1) m (marked-has_index (max_index 0 m + 1) m t),
            ))
        | inr f ↦ elim (Bool-cases (ltb r (max_index 0 m + 2))) [
          | inl l ↦ free (ground (arith, l))
          | inr g ↦
              absurd
                (false≢true (sym f ∙ below (max_index 0 m + 1) (omega arith) (ground (arith, g))))
        ]
      ],
      λ j l. below j (omega arith) l,
    )
