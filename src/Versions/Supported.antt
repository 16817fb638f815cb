-- ===== src/Versions/Supported.antt =====
-- Which Kubernetes versions are supported: the tables of pkg/api/common/versions.go, and what
-- `IsSupportedKubernetesVersion` and `GetAllSupportedKubernetesVersions` make of them.
use aks_engine.Common.{
  String, ◌≡◌, refl, ◌∙◌, Bool, true, false, ◌&&◌, ◌||◌, Option, none, some, List, [], ◌∷◌, arith,
  if◌then◌else◌, ◌==◌, string_eq, eq_iff, any, elem, elem-sort_by, sort_by-IsSorted, IsSorted,
  lookup, delete, lookup-insert, lookup-delete,
}
use aks_engine.Versions.Semver
use aks_engine.Versions.Semver.{Semver, SemverLaws}
use aks_engine.Versions.Table.{
  all_kubernetes_supported_versions, windows_unsupported, delete_all,
  get_all_kubernetes_windows_supported_versions_map,
}
use aks_engine.Versions.Select.{
  usable_keys, supported_map, version_of, is_kubernetes_version_ge,
  get_all_supported_kubernetes_versions, is_supported_kubernetes_version,
}

-- Whether an entry of the table may be used: at all, or for a new cluster.
abbrev pub allowed : Bool → Option Bool → Bool
allowed is_update none = false
allowed is_update (some supported) = is_update || supported

abbrev is_none : Option Bool → Bool
is_none none = true
is_none (some b) = false

distinct_keys : List (String × Bool) → Bool
distinct_keys [] = true
distinct_keys ((k, b) ∷ m) = is_none (lookup k m) && distinct_keys m

elem-usable_keys :
    (is_update : Bool) (v : String) (m : List (String × Bool))
    → distinct_keys m ≡ true
    → elem v (usable_keys is_update m) ≡ allowed is_update (lookup v m)
unfolding usable_keys distinct_keys
elem-usable_keys is_update v [] d = refl
elem-usable_keys is_update v ((k, b) ∷ m) d =
    ground (arith, elem-usable_keys is_update v m, eq_iff v k, eq_iff k v)

distinct_keys-supported_map :
    (has_windows : Bool) → distinct_keys (supported_map has_windows) ≡ true
unfolding distinct_keys supported_map get_all_kubernetes_windows_supported_versions_map
distinct_keys-supported_map true = refl
distinct_keys-supported_map false = refl

lookup-delete_all :
    (v : String) (vs : List String) (m : List (String × Bool))
    → lookup v (delete_all vs m) ≡ (if elem v vs then none else lookup v m)
unfolding delete_all
lookup-delete_all v [] m = refl
lookup-delete_all v (u ∷ vs) m =
    ground (arith, lookup-delete_all v vs (delete u m), lookup-delete u v m, eq_iff v u, eq_iff u v)

-- The Windows table agrees with the Linux table, for every version, except that the versions of
-- the exclusion list are absent and that 1.8.12 has an entry for new clusters.
pub lookup-windows_map :
    (v : String)
    → lookup v (supported_map true) ≡ (
        if "1.8.12" == v
        then some true
        else if elem v windows_unsupported
        then none
        else lookup v (supported_map false))
unfolding supported_map get_all_kubernetes_windows_supported_versions_map
lookup-windows_map v =
    lookup-insert "1.8.12" v true (delete_all windows_unsupported all_kubernetes_supported_versions)
    ∙ ap_else ("1.8.12" == v) (some true)
        (lookup-delete_all v windows_unsupported all_kubernetes_supported_versions)
  where
    ap_else :
        (b : Bool) (x : Option Bool) {y z : Option Bool}
        → y ≡ z
        → (if b then x else y) ≡ (if b then x else z)
    ap_else true x p = refl
    ap_else false x p = p

any-eq-elem : (v : String) (vs : List String) → any (λ ver. ver == v) vs ≡ elem v vs
any-eq-elem v [] = refl
any-eq-elem v (u ∷ vs) = ground (arith, any-eq-elem v vs, eq_iff u v, eq_iff v u)

module _ (semver : Semver) where
  pub elem-get_all_supported :
      (v : String) (is_update has_windows : Bool)
      → elem v (get_all_supported_kubernetes_versions semver is_update has_windows)
        ≡ allowed is_update (lookup v (supported_map has_windows))
  unfolding get_all_supported_kubernetes_versions
  elem-get_all_supported v is_update has_windows =
      elem-sort_by (λ a b. is_kubernetes_version_ge semver b a) v
        (usable_keys is_update (supported_map has_windows))
      ∙ elem-usable_keys is_update v (supported_map has_windows)
          (distinct_keys-supported_map has_windows)

  -- `IsSupportedKubernetesVersion`, which searches a sorted list built from the table, is one
  -- lookup in the table: a version is supported exactly when it has an entry, and either the
  -- cluster exists already or the entry allows new clusters.
  pub is_supported_kubernetes_version-eq-lookup :
      (version : String) (is_update has_windows : Bool)
      → is_supported_kubernetes_version semver version is_update has_windows
        ≡ allowed is_update (lookup version (supported_map has_windows))
  unfolding is_supported_kubernetes_version
  is_supported_kubernetes_version-eq-lookup version is_update has_windows =
      any-eq-elem version (get_all_supported_kubernetes_versions semver is_update has_windows)
      ∙ elem-get_all_supported version is_update has_windows

  -- The list of all supported versions is sorted, from the oldest to the newest, with a version
  -- library that keeps its laws.
  pub get_all_supported_kubernetes_versions-IsSorted :
      SemverLaws semver
      → (is_update has_windows : Bool)
      → IsSorted
          (λ a b. Semver.ge semver (version_of semver b) (version_of semver a) ≡ true)
          (get_all_supported_kubernetes_versions semver is_update has_windows)
  unfolding get_all_supported_kubernetes_versions is_kubernetes_version_ge
  get_all_supported_kubernetes_versions-IsSorted laws is_update has_windows =
      sort_by-IsSorted (λ a b. Semver.ge semver (version_of semver b) (version_of semver a))
        (λ a b. Semver.ge semver (version_of semver b) (version_of semver a) ≡ true) (λ a b h. h)
        (λ a b h. ground (arith, h, laws.compare_swap (version_of semver b) (version_of semver a)))
        (λ a b c h k.
          laws.ge_trans (version_of semver c) (version_of semver b) (version_of semver a) k h)
        (usable_keys is_update (supported_map has_windows))
