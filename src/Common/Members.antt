-- ===== src/Common/Members.antt =====
-- What membership tests say of filtered, appended and sorted lists and of maps.
use aks_engine.Common.Tests.{Comparable, ◌==◌, Bool-cases}
use aks_engine.Common.Lists.{filter, elem, All, IsSorted, insert_sorted, sort_by}
use mathlib.Core.Path.{◌≡◌, refl}
use mathlib.Core.Logic.{inl, inr}
use mathlib.Core.Bool.{Bool, true, false, ◌&&◌, ◌||◌}
use mathlib.Core.List.{List, [], ◌∷◌, ◌++◌}
use native.Mathlib.Omega.{arith}

module _ {ℓ} {A : Type ℓ} ⦃e : Comparable A⦄ where
  -- No element occurs twice.
  abbrev pub IsDistinct : List A → Type 0
  IsDistinct [] = Unit
  IsDistinct (x ∷ xs) = (elem x xs ≡ false) × IsDistinct xs

  -- None of the elements is among those seen.
  abbrev pub AreNew : List A → List A → Type 0
  AreNew seen [] = Unit
  AreNew seen (x ∷ xs) = (elem x seen ≡ false) × AreNew seen xs

  pub AreNew-cons :
      (seen xs : List A) (a : A) → AreNew (a ∷ seen) xs → AreNew seen xs × (elem a xs ≡ false)
  AreNew-cons seen [] a h = (tt, refl)
  AreNew-cons seen (x ∷ xs) a h =
      let (new, other) = AreNew-cons seen xs a h.1 in
      ((ground (arith, h.0), new), ground (arith, h.0, other, e.same_iff x a, e.same_iff a x))

  pub AreNew-seen :
      (seen xs : List A) (a : A) → AreNew seen xs → elem a xs ≡ false → AreNew (a ∷ seen) xs
  AreNew-seen seen [] a h k = tt
  AreNew-seen seen (x ∷ xs) a h k = (
    ground (arith, h.0, k, e.same_iff x a, e.same_iff a x),
    AreNew-seen seen xs a h.1 (ground (arith, k)),
  )

  pub AreNew-nil : (xs : List A) → AreNew [] xs
  AreNew-nil [] = tt
  AreNew-nil (x ∷ xs) = (refl, AreNew-nil xs)

  pub elem-append : (a : A) (xs ys : List A) → elem a (xs ++ ys) ≡ (elem a xs || elem a ys)
  elem-append a [] ys = refl
  elem-append a (x ∷ xs) ys = ground (arith, elem-append a xs ys)

  pub elem-filter : (p : A → Bool) (a : A) (xs : List A) → elem a (filter p xs) ≡ (elem a xs && p a)
  elem-filter p a [] = refl
  elem-filter p a (x ∷ xs) = elim (Bool-cases (a == x)) [
    | inl same ↦
        let q : a ≡ x = (e.same_iff a x).0 same in
        elim (Bool-cases (p x)) [
          | inl h ↦ ground (arith, elem-filter p a xs, q, h, same)
          | inr h ↦ ground (arith, elem-filter p a xs, q, h, same)
        ]
    | inr other ↦ ground (arith, elem-filter p a xs, other)
  ]

  pub IsDistinct-filter : (p : A → Bool) (xs : List A) → IsDistinct xs → IsDistinct (filter p xs)
  IsDistinct-filter p [] h = tt
  IsDistinct-filter p (x ∷ xs) h = elim (Bool-cases (p x)) [
    | inl t ↦ rw t (ground (arith, elem-filter p x xs, h.0), IsDistinct-filter p xs h.1)
    | inr f ↦ rw f (IsDistinct-filter p xs h.1)
  ]

  elem-insert_sorted :
      (less : A → A → Bool) (a x : A) (ys : List A)
      → elem a (insert_sorted less x ys) ≡ (a == x || elem a ys)
  elem-insert_sorted less a x [] = refl
  elem-insert_sorted less a x (y ∷ ys) = ground (arith, elem-insert_sorted less a x ys)

  -- Sorting keeps the elements.
  pub elem-sort_by :
      (less : A → A → Bool) (a : A) (xs : List A) → elem a (sort_by less xs) ≡ elem a xs
  unfolding sort_by
  elem-sort_by less a [] = refl
  elem-sort_by less a (x ∷ xs) =
      ground (arith, elem-sort_by less a xs, elem-insert_sorted less a x (sort_by less xs))

  IsDistinct-insert_sorted :
      (less : A → A → Bool) (x : A) (ys : List A)
      → elem x ys ≡ false
      → IsDistinct ys
      → IsDistinct (insert_sorted less x ys)
  IsDistinct-insert_sorted less x [] h k = (refl, tt)
  IsDistinct-insert_sorted less x (y ∷ ys) h k = elim (Bool-cases (less x y)) [
    | inl t ↦ rw t (h, k)
    | inr f ↦ rw f (
      ground (arith, elem-insert_sorted less y x ys, e.same_iff x y, e.same_iff y x, h, k.0),
      IsDistinct-insert_sorted less x ys (ground (arith, h)) k.1,
    )
  ]

  -- Sorting makes no copies.
  pub IsDistinct-sort_by :
      (less : A → A → Bool) (xs : List A) → IsDistinct xs → IsDistinct (sort_by less xs)
  unfolding sort_by
  IsDistinct-sort_by less [] h = tt
  IsDistinct-sort_by less (x ∷ xs) h =
      IsDistinct-insert_sorted less x (sort_by less xs) (rw (elem-sort_by less x xs) h.0)
        (IsDistinct-sort_by less xs h.1)

  -- What holds of all elements holds of each element.
  pub All-elem {κ} : (P : A → Type κ) (a : A) (xs : List A) → All P xs → elem a xs ≡ true → P a
  All-elem P a [] h m = absurd (ground (arith, m))
  All-elem P a (x ∷ xs) h m = elim (Bool-cases (a == x)) [
    | inl same ↦ let q : a ≡ x = (e.same_iff a x).0 same in rw q h.0
    | inr other ↦ All-elem P a xs h.1 (ground (arith, m, other))
  ]

module _ {ℓ κ} {A : Type ℓ} (less : A → A → Bool) (P : A → Type κ) where
  pub All-insert_sorted : (x : A) (ys : List A) → P x → All P ys → All P (insert_sorted less x ys)
  All-insert_sorted x [] h k = (h, tt)
  All-insert_sorted x (y ∷ ys) h k = elim (Bool-cases (less x y)) [
    | inl t ↦ rw t (h, (k.0, k.1))
    | inr f ↦ rw f (k.0, All-insert_sorted x ys h k.1)
  ]

  -- Sorting keeps what holds of all elements.
  pub All-sort_by : (xs : List A) → All P xs → All P (sort_by less xs)
  unfolding sort_by
  All-sort_by [] h = tt
  All-sort_by (x ∷ xs) h = All-insert_sorted x (sort_by less xs) h.0 (All-sort_by xs h.1)

-- Sorting gives a sorted list, by any transitive relation that the test decides one way or the other.
module _ {ℓ κ} {A : Type ℓ} (less : A → A → Bool) (R : A → A → Type κ)
    (before : (a b : A) → less a b ≡ true → R a b) (after : (a b : A) → less a b ≡ false → R b a)
    (trans : (a b c : A) → R a b → R b c → R a c) where
  All-trans : (a b : A) (xs : List A) → R a b → All (R b) xs → All (R a) xs
  All-trans a b [] h k = tt
  All-trans a b (x ∷ xs) h k = (trans a b x h k.0, All-trans a b xs h k.1)

  insert_sorted-IsSorted :
      (x : A) (ys : List A) → IsSorted R ys → IsSorted R (insert_sorted less x ys)
  insert_sorted-IsSorted x [] h = (tt, tt)
  insert_sorted-IsSorted x (y ∷ ys) h = elim (Bool-cases (less x y)) [
    | inl t ↦ let le : R x y = before x y t in rw t ((le, All-trans x y ys le h.0), (h.0, h.1))
    | inr f ↦
        rw f (All-insert_sorted less (R y) x ys (after x y f) h.0, insert_sorted-IsSorted x ys h.1)
  ]

  pub sort_by-IsSorted : (xs : List A) → IsSorted R (sort_by less xs)
  unfolding sort_by
  sort_by-IsSorted [] = tt
  sort_by-IsSorted (x ∷ xs) = insert_sorted-IsSorted x (sort_by less xs) (sort_by-IsSorted xs)
