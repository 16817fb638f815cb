-- ===== src/Versions/Semver.antt =====
-- What pkg/api/common/versions.go uses of github.com/blang/semver, as an interface: `make` is
-- `semver.Make` with `none` for its error, beside which it returns `zero_version`; `is_pre` is
-- `len(v.Pre) != 0`.
use aks_engine.Common.{ℕ, String, ◌≡◌, Bool, true, false, Option, List, ◌↔◌, Memᴰ, IsSorted}
use Prim.Native.Nat.{Ordering}

pub record Semver : Type 1 where
  pub Version : Type 0
  pub make : String → Option Version
  pub zero_version : Version
  pub major : Version → ℕ
  pub minor : Version → ℕ
  pub is_pre : Version → Bool
  pub compare : Version → Version → Ordering
  pub to_string : Version → String
  pub sort : List Version → List Version

abbrev pub is_ge : Ordering → Bool
is_ge Ordering.lt = false
is_ge _ = true

abbrev pub is_gt : Ordering → Bool
is_gt Ordering.gt = true
is_gt _ = false

abbrev pub opposite : Ordering → Ordering
opposite Ordering.lt = Ordering.gt
opposite Ordering.eq = Ordering.eq
opposite Ordering.gt = Ordering.lt

-- v1.GE(v2), v1.GT(v2), v1.LE(v2), v1.LT(v2) are tests on `Compare`.
module _ (semver : Semver) where
  open semver use {Version, compare}

  abbrev pub ge : Version → Version → Bool
  ge a b = is_ge (compare a b)

  abbrev pub gt : Version → Version → Bool
  gt a b = is_gt (compare a b)

  abbrev pub le : Version → Version → Bool
  le a b = is_ge (compare b a)

  abbrev pub lt : Version → Version → Bool
  lt a b = is_gt (compare b a)

-- The documented laws: `Compare` is a total preorder, and `Sort` sorts.
pub record SemverLaws (semver : Semver) : Type 1 where
  pub compare_swap : (a b : semver.Version) → semver.compare b a ≡ opposite (semver.compare a b)
  pub ge_trans :
      (a b c : semver.Version) → ge semver a b ≡ true → ge semver b c ≡ true → ge semver a c ≡ true
  pub mem-sort :
      (vs : List semver.Version) (v : semver.Version) → Memᴰ v (semver.sort vs) ↔ Memᴰ v vs
  pub sort-sorted :
      (vs : List semver.Version) → IsSorted (λ a b. ge semver b a ≡ true) (semver.sort vs)
