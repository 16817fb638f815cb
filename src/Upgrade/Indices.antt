-- ===== src/Upgrade/Indices.antt =====
-- pkg/operations/kubernetesupgrade/upgrader.go: the free indices of machines.
pub mod Free
use aks_engine.Common.{
  ℕ, zero, suc, ◌+◌, Bool, true, false, Option, none, some, List, [], ◌∷◌, ltb, if◌then◌else◌,
  nat_eq, lookup,
}

abbrev gap_or : Option ℕ → ℕ → ℕ
gap_or (some i) j = i
gap_or none j = j

module _ {ℓ} {V : Type ℓ} where
  -- The loop that looks for the largest index, from 0.
  unfoldable pub max_index : ℕ → List (ℕ × V) → ℕ
  max_index m [] = m
  max_index m ((i, v) ∷ vms) = max_index (if ltb m i then i else m) vms

  abbrev pub has_index : ℕ → List (ℕ × V) → Bool
  has_index i vms = elim (lookup i vms) [ none ↦ false | some v ↦ true ]

  -- `for indx := i; indx < i + rounds; indx++`, up to the first index that is not there.
  unfoldable pub first_gap : ℕ → ℕ → List (ℕ × V) → Option ℕ
  first_gap zero i vms = none
  first_gap (suc rounds) i vms =
      let later = first_gap rounds (i + 1) vms in if has_index i vms then later else some i

  unfoldable pub get_available_index : List (ℕ × V) → ℕ
  unfolding max_index first_gap
  get_available_index vms = gap_or (first_gap (max_index 0 vms) 0 vms) (max_index 0 vms + 1)

-- m[i] of a `map[int]bool` whose entries are all true.
abbrev pub is_marked : ℕ → List (ℕ × Bool) → Bool
is_marked i m = elim (lookup i m) [ none ↦ false | some b ↦ b ]

-- `for upgradedMastersIndex[masterIndexToCreate] { masterIndexToCreate++ }`, on fuel.
unfoldable pub first_unmarked : ℕ → ℕ → List (ℕ × Bool) → ℕ
first_unmarked zero i m = i
first_unmarked (suc fuel) i m =
    let later = first_unmarked fuel (i + 1) m in if is_marked i m then later else i

-- Some index up to one behind the largest is not marked, so this much fuel is enough.
unfoldable pub master_index_to_create : List (ℕ × Bool) → ℕ
unfolding max_index first_unmarked
master_index_to_create m = first_unmarked (max_index 0 m + 2) 0 m
