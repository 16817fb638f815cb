-- ===== src/Examples/Releases.antt =====
-- A concrete version library: releases without pre-releases, as numbers in the order of versions.
use Prim.Native.Nat.{compare, ◌/◌, ◌%◌}
use aks_engine.Common.{
  ℕ, ◌≡◌, ◌↔◌, String, Bool, true, false, List, [], ◌∷◌, lookup, string_eq, insert_sorted, sort_by,
  sort_by-IsSorted, arith, Memᴰ, if◌then◌else◌, decimal, ◌<>◌,
}
use aks_engine.Versions.Semver.{Semver, SemverLaws, is_ge, opposite}

abbrev table : List (String × ℕ)
table =
    ("1.12.8", 11208)
    ∷ ("1.13.8", 11308)
    ∷ ("1.13.9", 11309)
    ∷ ("1.14.5", 11405)
    ∷ ("1.15.2", 11502)
    ∷ ("1.14.0-alpha.0", 11399)
    ∷ ("1.15.0-alpha.0", 11499)
    ∷ ("1.16.0-alpha.0", 11599)
    ∷ ("1.17.0-alpha.0", 11699)
    ∷ []

abbrev less : ℕ → ℕ → Bool
less a b = is_ge (compare b a)

abbrev pub releases : Semver
releases = record {
  Version = ℕ;
  make = λ s. lookup s table;
  zero_version = 0;
  major = λ v. v / 10000;
  minor = λ v. v / 100 % 100;
  is_pre = λ v. false;
  compare = compare;
  to_string =
      λ v. decimal (v / 10000) <> "." <> decimal (v / 100 % 100) <> "." <> decimal (v % 100);
  sort = sort_by less;
}

Mem-insert_sorted : (x v : ℕ) (vs : List ℕ) → Memᴰ v (insert_sorted less x vs) ↔ Memᴰ v (x ∷ vs)
Mem-insert_sorted x v [] = (λ m. m, λ m. m)
Mem-insert_sorted x v (y ∷ ys) = go (less x y) (Mem-insert_sorted x v ys)
  where
    go :
        (b : Bool)
        → Memᴰ v (insert_sorted less x ys) ↔ Memᴰ v (x ∷ ys)
        → Memᴰ v (if b then x ∷ y ∷ ys else y ∷ insert_sorted less x ys) ↔ Memᴰ v (x ∷ y ∷ ys)
    go true e = (λ m. m, λ m. m)
    go false e = (forth, back)
      where
        forth : Memᴰ v (y ∷ insert_sorted less x ys) → Memᴰ v (x ∷ y ∷ ys)
        forth (Memᴰ.head q) = Memᴰ.tail (Memᴰ.head q)
        forth (Memᴰ.tail m) = swap (e.0 m)
          where
            swap : Memᴰ v (x ∷ ys) → Memᴰ v (x ∷ y ∷ ys)
            swap (Memᴰ.head q) = Memᴰ.head q
            swap (Memᴰ.tail m) = Memᴰ.tail (Memᴰ.tail m)

        back : Memᴰ v (x ∷ y ∷ ys) → Memᴰ v (y ∷ insert_sorted less x ys)
        back (Memᴰ.head q) = Memᴰ.tail (e.1 (Memᴰ.head q))
        back (Memᴰ.tail (Memᴰ.head q)) = Memᴰ.head q
        back (Memᴰ.tail (Memᴰ.tail m)) = Memᴰ.tail (e.1 (Memᴰ.tail m))

Mem-cons : (x v : ℕ) (ys zs : List ℕ) → (Memᴰ v ys → Memᴰ v zs) → Memᴰ v (x ∷ ys) → Memᴰ v (x ∷ zs)
Mem-cons x v ys zs f (Memᴰ.head q) = Memᴰ.head q
Mem-cons x v ys zs f (Memᴰ.tail m) = Memᴰ.tail (f m)

Mem-sort : (vs : List ℕ) (v : ℕ) → Memᴰ v (sort_by less vs) ↔ Memᴰ v vs
unfolding sort_by
Mem-sort [] v = (λ m. m, λ m. m)
Mem-sort (x ∷ xs) v = (
  λ m.
      Mem-cons x v (sort_by less xs) xs (Mem-sort xs v).0
        ((Mem-insert_sorted x v (sort_by less xs)).0 m),
  λ m.
      (Mem-insert_sorted x v (sort_by less xs)).1
        (Mem-cons x v xs (sort_by less xs) (Mem-sort xs v).1 m),
)

compare_swap : (a b : ℕ) → compare b a ≡ opposite (compare a b)
compare_swap a b = ground arith

pub releases_laws : SemverLaws releases
releases_laws = record {
  compare_swap = compare_swap;
  ge_trans = λ a b c p q. ground (arith, p, q);
  mem-sort = Mem-sort;
  sort-sorted =
      sort_by-IsSorted less (λ a b. less a b ≡ true) (λ a b h. h)
        (λ a b h. ground (arith, h, compare_swap b a)) (λ a b c h k. ground (arith, h, k));
}
