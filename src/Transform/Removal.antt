-- ===== src/Transform/Removal.antt =====
-- pkg/engine/transform/transform.go: `removeIndexesFromArray`.
pub mod Indexes
use mathlib.Core.Path.{fun_ext}
use native.Mathlib.Nat.{zero-add}
use aks_engine.Common.{
  ℕ, zero, suc, ◌+◌, ◌≤◌, ◌<◌, ◌≡◌, refl, ap, sym, ◌∙◌, Bool, true, false, not, Option, none, some,
  List, [], ◌∷◌, length, elem, All, IsSorted, IsDistinct, sort_by, sort_by-IsSorted, ltb, nat_eq,
  ◌==◌, Bool-cases, Option-cases, ◌&&◌, nat_beq_iff, inl, inr, if◌then◌else◌, arith, elem-sort_by,
  All-sort_by, IsDistinct-sort_by,
}

-- Indexes from the largest to the smallest, each within the array.
abbrev Descending : List ℕ → Type 0
Descending [] = Unit
Descending (i ∷ is) = All (λ j. j < i) is × Descending is

elem-above : (i j : ℕ) (is : List ℕ) → All (λ a. a < i) is → i ≤ j → elem j is ≡ false
elem-above i j [] h le = refl
elem-above i j (a ∷ is) h le = ground (arith, elem-above i j is h.1 le, h.0)

All-lt_trans : (i n : ℕ) (is : List ℕ) → i ≤ n → All (λ a. a < i) is → All (λ a. a < n) is
All-lt_trans i n [] le h = tt
All-lt_trans i n (a ∷ is) le h = (omega arith, All-lt_trans i n is le h.1)

abbrev greater : ℕ → ℕ → Bool
greater a b = ltb b a

All-lt_of_le : (i : ℕ) (is : List ℕ) → All (λ j. j ≤ i) is → elem i is ≡ false → All (λ j. j < i) is
All-lt_of_le i [] h k = tt
All-lt_of_le i (a ∷ is) h k = (ground (arith, h.0, k), All-lt_of_le i is h.1 (ground (arith, k)))

sorted-Descending : (is : List ℕ) → IsSorted (λ a b. b ≤ a) is → IsDistinct is → Descending is
sorted-Descending [] h d = tt
sorted-Descending (i ∷ is) h d = (All-lt_of_le i is h.0 d.0, sorted-Descending is h.1 d.1)

module _ {ℓ} {A : Type ℓ} where
  abbrev cons_some : A → Option (List A) → Option (List A)
  cons_some x none = none
  cons_some x (some ys) = some (x ∷ ys)

  -- append(array[:index], array[index+1:]...); `none` is an index out of range.
  unfoldable pub remove_at : ℕ → List A → Option (List A)
  remove_at i [] = none
  remove_at zero (x ∷ xs) = some xs
  remove_at (suc i) (x ∷ xs) = cons_some x (remove_at i xs)

  abbrev and_also : Option (List A) → (List A → Option (List A)) → Option (List A)
  and_also none f = none
  and_also (some xs) f = f xs

  -- The loop over the indexes.
  unfoldable pub remove_each : List ℕ → List A → Option (List A)
  unfolding remove_at
  remove_each [] xs = some xs
  remove_each (i ∷ is) xs = and_also (remove_at i xs) (remove_each is)

  -- From the largest index to the smallest, so that a removal moves none of the later ones.
  unfoldable pub remove_indexes_from_array : List A → List ℕ → Option (List A)
  unfolding remove_each
  remove_indexes_from_array array indexes = remove_each (sort_by (λ a b. ltb b a) indexes) array

  -- The elements at the positions that pass a test, with the position of the first one.
  abbrev pub at_positions : (ℕ → Bool) → ℕ → List A → List A
  at_positions keep k [] = []
  at_positions keep k (x ∷ xs) =
      let rest = at_positions keep (suc k) xs in if keep k then x ∷ rest else rest

  at_positions-all :
      (keep : ℕ → Bool) (k : ℕ) (xs : List A)
      → ((j : ℕ) → k ≤ j → keep j ≡ true)
      → at_positions keep k xs ≡ xs
  at_positions-all keep k [] h = refl
  at_positions-all keep k (x ∷ xs) h =
      rw (h k (omega arith))
        (ap (◌∷◌ x) (at_positions-all keep (suc k) xs (λ j le. h j (omega arith))))

  -- A removal takes one element away.
  remove_at_lem :
      (k i : ℕ) (xs : List A)
      → i < length xs
      → remove_at i xs ≡ some (at_positions (λ j. not (j == k + i)) k xs)
  unfolding remove_at
  remove_at_lem k i [] h = absurd (omega arith)
  remove_at_lem k zero (x ∷ xs) h =
      rw (at_positions-all (λ j. not (j == k + 0)) (suc k) xs (λ j le. ground arith)) (ground arith)
  remove_at_lem k (suc i) (x ∷ xs) h = ground (arith, remove_at_lem (suc k) i xs)

  length-remove_at :
      (i : ℕ) (xs ys : List A) → remove_at i xs ≡ some ys → length xs ≡ suc (length ys)
  unfolding remove_at
  length-remove_at i [] ys h = absurd (cc h)
  length-remove_at zero (x ∷ xs) ys h = ground (arith, h)
  length-remove_at (suc i) (x ∷ xs) ys h = elim (Option-cases (remove_at i xs)) [
    | inl e ↦ absurd (ground (arith, h, e))
    | inr (zs, e) ↦ ground (arith, h, e, length-remove_at i xs zs e)
  ]

  -- Taking away one position, and then positions before it, is taking away all of them.
  at_positions_twice :
      (p : ℕ → Bool) (k i : ℕ) (xs : List A)
      → ((j : ℕ) → i ≤ j → p j ≡ true)
      → at_positions p k (at_positions (λ j. not (j == i)) k xs)
        ≡ at_positions (λ j. not (j == i) && p j) k xs
  at_positions_twice p k i [] above = refl
  at_positions_twice p k i (x ∷ xs) above = elim (Bool-cases (k == i)) [
    | inl here ↦
        let e : k ≡ i = (nat_beq_iff k i).0 here in
        let unchanged = at_positions-all (λ j. not (j == i)) (suc k) xs (λ j le. ground arith) in
        let kept = at_positions-all p k xs (λ j le. above j (omega arith)) in
        let both =
          at_positions-all (λ j. not (j == i) && p j) (suc k) xs
            (λ j le. ground (arith, above j (omega arith))) in
        rw (here, unchanged, kept, both)
    | inr away ↦ elim (Bool-cases (p k)) [
      | inl yes_ ↦ rw away (rw yes_ (ap (◌∷◌ x) (at_positions_twice p (suc k) i xs above)))
      | inr no_ ↦ rw away (rw no_ (at_positions_twice p (suc k) i xs above))
    ]
  ]

  remove_each_lem :
      (is : List ℕ) (xs : List A)
      → Descending is
      → All (λ i. i < length xs) is
      → remove_each is xs ≡ some (at_positions (λ j. not (elem j is)) 0 xs)
  unfolding remove_each
  remove_each_lem [] xs d h = ap some (sym (at_positions-all (λ j. true) 0 xs (λ j le. refl)))
  remove_each_lem (i ∷ is) xs d h =
      let ys = at_positions (λ j. not (j == i)) 0 xs in
      let first : remove_at i xs ≡ some ys = simp zero-add at (remove_at_lem 0 i xs h.0) in
      let shorter = length-remove_at i xs ys first in
      rw first (
        remove_each_lem is ys d.1 (All-lt_trans i (length ys) is (omega arith) d.0)
        ∙ ap some (
            at_positions_twice (λ j. not (elem j is)) 0 i xs
              (λ j le. ap not (elem-above i j is d.0 le))
            ∙ ap (λ p. at_positions p 0 xs) (fun_ext (λ j. ground arith))))

  -- Distinct indexes within the array: its elements at all other positions are left, in order.
  pub remove_indexes_from_array_lem :
      (array : List A) (indexes : List ℕ)
      → IsDistinct indexes
      → All (λ i. i < length array) indexes
      → remove_indexes_from_array array indexes
        ≡ some (at_positions (λ j. not (elem j indexes)) 0 array)
  unfolding remove_indexes_from_array
  remove_indexes_from_array_lem array indexes d h =
      remove_each_lem (sort_by greater indexes) array
        (sorted-Descending (sort_by greater indexes)
          (sort_by-IsSorted greater (λ a b. b ≤ a) (λ a b e. ground (arith, e))
            (λ a b e. ground (arith, e)) (λ a b c p q. omega arith) indexes)
          (IsDistinct-sort_by greater indexes d))
        (All-sort_by greater (λ i. i < length array) indexes h)
      ∙ ap (λ p. some (at_positions p 0 array))
          (fun_ext (λ j. ap not (elem-sort_by greater j indexes)))
