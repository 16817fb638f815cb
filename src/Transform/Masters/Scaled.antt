-- ===== src/Transform/Masters/Scaled.antt =====
-- `NormalizeMasterResourcesForScaling` without indexes: which resources it leaves, and how.
use native.Mathlib.Nat.{zero-add}
use aks_engine.Common.{
  ℕ, suc, ◌+◌, ◌≤◌, ◌<◌, ◌≡◌, refl, ap, ◌∙◌, Bool, true, false, not, List, [], ◌∷◌, elem, All,
  IsDistinct, length, inl, inr, Bool-cases, if◌then◌else◌, nat_eq, ok, arith,
}
use aks_engine.Transform.Json.{Json, as_map}
use aks_engine.Transform.Removal.{at_positions, remove_indexes_from_array_lem}
use aks_engine.Transform.Masters.{
  scale_master, is_removed_master, scan_masters, normalize_master_resources_for_scaling,
}

-- Each resource, scaled, but for the extensions of the masters.
unfoldable pub scaled_masters : List Json → List Json
scaled_masters [] = []
scaled_masters (r ∷ rs) =
    let rest = scaled_masters rs in
    if is_removed_master (as_map r) then rest else scale_master r (as_map r) ∷ rest

-- The indexes of a list, told with that of its first resource.
record Scanned (k : ℕ) (rs : List Json) (cs : List Json) (is : List ℕ) : Type 0 where
  distinct : IsDistinct is
  later : (j : ℕ) → j < k → elem j is ≡ false
  below : All (λ i. i < k + length cs) is
  left : at_positions (λ j. not (elem j is)) k cs ≡ scaled_masters rs

at_positions-cong {ℓ} :
    {A : Type ℓ} (p q : ℕ → Bool) (k : ℕ) (xs : List A)
    → ((j : ℕ) → k ≤ j → p j ≡ q j)
    → at_positions p k xs ≡ at_positions q k xs
at_positions-cong p q k [] h = refl
at_positions-cong p q k (x ∷ xs) h =
    ground (arith, h k, at_positions-cong p q (suc k) xs (λ j le. h j (omega arith)))

Scanned-removed :
    (k : ℕ) (r : Json) (rs : List Json) (c : Json) (cs : List Json) (is : List ℕ)
    → is_removed_master (as_map r) ≡ true
    → Scanned (suc k) rs cs is
    → Scanned k (r ∷ rs) (c ∷ cs) (k ∷ is)
unfolding scaled_masters
Scanned-removed k r rs c cs is removed s =
    let moved : k + suc (length cs) ≡ suc k + length cs = omega arith in
    let within : All (λ i. i < k + suc (length cs)) is = rw moved s.below in
    let skips : at_positions (λ j. not (elem j (k ∷ is))) (suc k) cs ≡ scaled_masters rs =
      at_positions-cong (λ j. not (elem j (k ∷ is))) (λ j. not (elem j is)) (suc k) cs
        (λ j le. ground arith)
      ∙ s.left in
    record {
      distinct = (s.later k (omega arith), s.distinct);
      later = λ j lt. ground (arith, s.later j (omega arith));
      below = (omega arith, within);
      left = rw (removed, ← skips) (ground arith);
    }

Scanned-left :
    (k : ℕ) (r : Json) (rs : List Json) (cs : List Json) (is : List ℕ)
    → is_removed_master (as_map r) ≡ false
    → Scanned (suc k) rs cs is
    → Scanned k (r ∷ rs) (scale_master r (as_map r) ∷ cs) is
unfolding scaled_masters
Scanned-left k r rs cs is stays s =
    let moved : k + suc (length cs) ≡ suc k + length cs = omega arith in
    record {
      distinct = s.distinct;
      later = λ j lt. s.later j (omega arith);
      below = rw moved s.below;
      left = rw (s.later k (omega arith), stays, s.left);
    }

scan_masters-Scanned :
    (k : ℕ) (rs : List Json) → Scanned k rs (scan_masters k rs).0 (scan_masters k rs).1
unfolding scan_masters scaled_masters
scan_masters-Scanned k [] = record { distinct = tt; later = λ j lt. refl; below = tt; left = refl }
scan_masters-Scanned k (r ∷ rs) = elim (Bool-cases (is_removed_master (as_map r))) [
  | inl removed ↦ rw removed (
      Scanned-removed k r rs (scale_master r (as_map r)) _ _ removed
        (scan_masters-Scanned (suc k) rs))
  | inr stays ↦ rw stays (Scanned-left k r rs _ _ stays (scan_masters-Scanned (suc k) rs))
]

-- The function never panics, and leaves each resource in its place, scaled, but for the extensions
-- of the masters.
pub normalize_master_resources_for_scaling-eq-scaled :
    (resources : List Json)
    → normalize_master_resources_for_scaling resources ≡ ok (scaled_masters resources)
unfolding normalize_master_resources_for_scaling
normalize_master_resources_for_scaling-eq-scaled resources =
    let s = scan_masters-Scanned 0 resources in
    rw
      (remove_indexes_from_array_lem (scan_masters 0 resources).0 (scan_masters 0 resources).1
        s.distinct (simp zero-add at s.below))
      (ap ok s.left)
