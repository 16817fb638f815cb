-- ===== src/Versions/Select.antt =====
-- pkg/api/common/versions.go, the functions that filter and choose versions.
use aks_engine.Common.{
  String, Bool, true, false, not, ◌&&◌, ◌||◌, Option, none, some, List, [], ◌∷◌, ◌++◌, map,
  if◌then◌else◌, ◌==◌, string_eq, filter, any, find?, sort_by, decimal, ◌<>◌, is_empty,
  trim_prefix_v, lookup,
}
use aks_engine.Versions.Semver
use aks_engine.Versions.Semver.{Semver}
use aks_engine.Versions.Table.{
  all_kubernetes_supported_versions, get_all_kubernetes_windows_supported_versions_map,
}

abbrev pub kubernetes_default_release : String
kubernetes_default_release = "1.13"

abbrev pub kubernetes_default_release_windows : String
kubernetes_default_release_windows = "1.14"

abbrev pub dcos_default_version : String
dcos_default_version = "1.11.0"

abbrev pub all_dcos_supported_versions : List String
all_dcos_supported_versions = "1.11.2" ∷ "1.11.0" ∷ "1.10.0" ∷ "1.9.8" ∷ "1.9.0" ∷ "1.8.8" ∷ []

-- The string constants `Kubernetes`, `DCOS`, `Swarm` and `SwarmMode`, and any other text.
abbrev pub kubernetes : String
kubernetes = "Kubernetes"

abbrev pub dcos : String
dcos = "DCOS"

-- m[k] of a `map[string]bool`: false where the key is missing.
abbrev pub is_on : Option Bool → Bool
is_on (some b) = b
is_on none = false

-- The keys of the entries that may be used, in the order of the map.
unfoldable pub usable_keys : Bool → List (String × Bool) → List String
usable_keys is_update [] = []
usable_keys is_update ((ver, supported) ∷ m) =
    let rest = usable_keys is_update m in if is_update || supported then ver ∷ rest else rest

unfoldable pub supported_map : Bool → List (String × Bool)
supported_map has_windows =
    if has_windows
    then get_all_kubernetes_windows_supported_versions_map
    else all_kubernetes_supported_versions

-- The inner loop of `GetVersionsBetween`: `lv` once for each equal `gv`.
unfoldable pub copies : String → List String → List String
copies lv [] = []
copies lv (gv ∷ gvs) = let rest = copies lv gvs in if lv == gv then lv ∷ rest else rest

unfoldable pub intersect : List String → List String → List String
unfolding copies
intersect [] greater_than = []
intersect (lv ∷ lvs) greater_than = copies lv greater_than ++ intersect lvs greater_than

-- The first element equal to what is looked for, or "".
abbrev pub or_empty : Option String → String
or_empty (some s) = s
or_empty none = ""

module _ (semver : Semver) where
  open semver use {Version, make, zero_version, major, minor, is_pre, to_string, sort}

  -- sv, _ := semver.Make(v)
  abbrev pub made : Option Version → Version
  made (some v) = v
  made none = zero_version

  abbrev pub version_of : String → Version
  version_of s = made (make s)

  -- fmt.Sprintf("%d.%d", sv.Major, sv.Minor)
  abbrev pub release_of : Version → String
  release_of v = decimal (major v) <> "." <> decimal (minor v)

  unfoldable pub is_kubernetes_version_ge : String → String → Bool
  is_kubernetes_version_ge actual_version version =
      Semver.ge semver (version_of actual_version) (version_of version)

  -- `less` of the `sort.Slice` call is `versions[j] >= versions[i]`.
  unfoldable pub get_all_supported_kubernetes_versions : Bool → Bool → List String
  unfolding usable_keys supported_map sort_by is_kubernetes_version_ge
  get_all_supported_kubernetes_versions is_update has_windows =
      sort_by (λ a b. is_kubernetes_version_ge b a)
        (usable_keys is_update (supported_map has_windows))

  -- One pass of the loops of `GetVersionsGt` and `GetVersionsLt`.
  unfoldable pub passes_gt : Version → Bool → Bool → Version → Bool
  passes_gt min inclusive pre_releases sv =
      if not pre_releases && is_pre sv
      then false
      else inclusive && Semver.ge semver sv min || not inclusive && Semver.gt semver sv min

  unfoldable pub passes_lt : Version → Bool → Bool → Version → Bool
  passes_lt max inclusive pre_releases sv =
      if not pre_releases && is_pre sv
      then false
      else inclusive && Semver.le semver sv max || not inclusive && Semver.lt semver sv max

  unfoldable pub get_versions_gt : List String → String → Bool → Bool → List String
  get_versions_gt versions version inclusive pre_releases =
      filter (λ v. passes_gt (version_of version) inclusive pre_releases (version_of v)) versions

  unfoldable pub get_versions_lt : List String → String → Bool → Bool → List String
  get_versions_lt versions version inclusive pre_releases =
      filter (λ v. passes_lt (version_of version) inclusive pre_releases (version_of v)) versions

  unfoldable pub get_versions_between : List String → String → String → Bool → Bool → List String
  unfolding intersect
  get_versions_between versions version_min version_max inclusive pre_releases =
      let pre = if is_pre (version_of version_min) then true else pre_releases in
      intersect (get_versions_lt versions version_max inclusive pre)
        (get_versions_gt versions version_min inclusive pre)

  unfoldable pub get_sorted_semver_versions : List String → Bool → List Version
  get_sorted_semver_versions versions pre_release =
      sort (filter (λ sv. not (is_pre sv) || pre_release) (map version_of versions))

  abbrev pub first_string : List Version → Option String
  first_string [] = none
  first_string (sv ∷ svs) = some (to_string sv)

  -- `none` is the panic of an index out of range, on a list with pre-releases only.
  unfoldable pub get_min_version : List String → Bool → Option String
  unfolding get_sorted_semver_versions
  get_min_version [] pre_release = some ""
  get_min_version (v ∷ vs) pre_release =
      first_string (get_sorted_semver_versions (v ∷ vs) pre_release)

  -- The body of the loop of `GetLatestPatchVersion`, on a version `ver` that parses to `sv`.
  unfoldable pub newer_patch : String → String → String → Version → String
  newer_patch major_minor version ver sv =
      if release_of sv == major_minor
      then (if is_empty version
          then ver
          else if Semver.gt semver sv (version_of version)
          then ver
          else version)
      else version

  -- A version that does not parse ends the loop at once, with the result found so far.
  unfoldable pub latest_patch_from : String → String → List String → String
  latest_patch_from major_minor version [] = version
  latest_patch_from major_minor version (ver ∷ vers) = elim (make ver) [
    | none ↦ version
    | some sv ↦ latest_patch_from major_minor (newer_patch major_minor version ver sv) vers
  ]

  unfoldable pub get_latest_patch_version : String → List String → String
  unfolding latest_patch_from
  get_latest_patch_version major_minor versions_list =
      latest_patch_from major_minor "" versions_list

  unfoldable pub get_default_kubernetes_version : Bool → String
  unfolding get_latest_patch_version get_all_supported_kubernetes_versions
  get_default_kubernetes_version has_windows =
      get_latest_patch_version
        (if has_windows then kubernetes_default_release_windows else kubernetes_default_release)
        (get_all_supported_kubernetes_versions false has_windows)

  unfoldable pub get_supported_kubernetes_version : String → Bool → String
  get_supported_kubernetes_version version has_windows =
      if is_on (lookup version (supported_map has_windows))
      then version
      else get_default_kubernetes_version has_windows

  unfoldable pub is_supported_kubernetes_version : String → Bool → Bool → Bool
  is_supported_kubernetes_version version is_update has_windows =
      any (λ ver. ver == version) (get_all_supported_kubernetes_versions is_update has_windows)

  -- A `nil` slice is the empty list: `var versions` to which nothing is appended is `nil` too.
  unfoldable pub get_supported_versions : String → Bool → Bool → List String × String
  get_supported_versions orch_type is_update has_windows =
      if orch_type == kubernetes
      then (
        get_all_supported_kubernetes_versions is_update has_windows,
        get_default_kubernetes_version has_windows,
      )
      else if orch_type == dcos
      then (all_dcos_supported_versions, dcos_default_version)
      else ([], "")

  -- The body of `RationalizeReleaseAndVersion` behind the prefixes and the table.
  unfoldable pub rationalize_in : List String → String → String → String → String
  rationalize_in [] default_version orch_rel orch_ver = ""
  rationalize_in (s ∷ ss) default_version orch_rel orch_ver =
      if is_empty orch_rel && is_empty orch_ver
      then default_version
      else if is_empty orch_ver
      then get_latest_patch_version orch_rel (s ∷ ss)
      else if is_empty orch_rel
      then or_empty (find? (λ ver. ver == orch_ver) (s ∷ ss))
      else or_empty
          (find? (λ ver. release_of (version_of ver) == orch_rel && ver == orch_ver) (s ∷ ss))

  unfoldable pub rationalize_release_and_version : String → String → String → Bool → Bool → String
  unfolding rationalize_in
  rationalize_release_and_version orch_type orch_rel orch_ver is_update has_windows =
      let (supported, default_version) = get_supported_versions orch_type is_update has_windows in
      rationalize_in supported default_version (trim_prefix_v orch_rel) (trim_prefix_v orch_ver)

  unfoldable pub get_valid_patch_version : String → String → Bool → Bool → String
  get_valid_patch_version orch_type orch_ver is_update has_windows =
      let version = rationalize_release_and_version orch_type "" orch_ver is_update has_windows in
      if is_empty orch_ver
      then rationalize_release_and_version orch_type "" "" is_update has_windows
      else if is_empty version
      then elim (make orch_ver) [
        | none ↦ ""
        | some sv ↦
            rationalize_release_and_version orch_type (release_of sv) "" is_update has_windows
      ]
      else version
