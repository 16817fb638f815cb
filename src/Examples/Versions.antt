-- ===== src/Examples/Versions.antt =====
-- The theorems on versions, at the versions of the table and a small version library.
use aks_engine.Common.{
  String, ◌≡◌, ◌⊎◌, refl, true, false, none, List, [], ◌∷◌, elem, any, lookup, string_eq,
}
use aks_engine.Versions.Table.{windows_unsupported, all_kubernetes_supported_versions}
use aks_engine.Versions.Select.{
  supported_map, passes_lt, passes_gt, get_latest_patch_version, get_versions_between,
  is_supported_kubernetes_version, rationalize_release_and_version, get_supported_versions,
}
use aks_engine.Versions.Between.{get_versions_between-eq-filter}
use aks_engine.Versions.Latest.{IsLatest, get_latest_patch_version_newest, in_release}
use aks_engine.Versions.Supported.{lookup-windows_map, is_supported_kubernetes_version-eq-lookup}
use aks_engine.Versions.Rationalize.{EmptyOrElem, rationalize_supported}
use aks_engine.Examples.Releases.{releases, releases_laws}

abbrev some_versions : List String
some_versions = "1.12.8" ∷ "1.13.8" ∷ "1.13.9" ∷ "1.14.5" ∷ []

get_versions_between-eq-filter_example :
    get_versions_between releases some_versions "1.12.8" "1.14.5" false true
    ≡ "1.13.8" ∷ "1.13.9" ∷ []
unfolding passes_lt passes_gt
get_versions_between-eq-filter_example =
    get_versions_between-eq-filter releases some_versions "1.12.8" "1.14.5" false true
      (refl, (refl, (refl, (refl, tt))))

get_latest_patch_version_newest_example :
    let r = get_latest_patch_version releases "1.13" some_versions in
    ((any (in_release releases releases_laws "1.13") some_versions ≡ false) × (r ≡ ""))
    ⊎ ((any (in_release releases releases_laws "1.13") some_versions ≡ true)
        × (elem r some_versions ≡ true)
        × IsLatest releases releases_laws "1.13" r some_versions)
get_latest_patch_version_newest_example =
    get_latest_patch_version_newest releases releases_laws "1.13" some_versions
      ((11208, refl, refl), ((11308, refl, refl), ((11309, refl, refl), ((11405, refl, refl), tt))))

lookup-windows_map_example : lookup "1.8.13" (supported_map true) ≡ none
unfolding windows_unsupported
lookup-windows_map_example = lookup-windows_map "1.8.13"

is_supported_kubernetes_version-eq-lookup_example :
    is_supported_kubernetes_version releases "1.13.9" false false ≡ true
unfolding supported_map all_kubernetes_supported_versions
is_supported_kubernetes_version-eq-lookup_example =
    is_supported_kubernetes_version-eq-lookup releases "1.13.9" false false

rationalize_supported_example :
    EmptyOrElem
      (rationalize_release_and_version releases "Kubernetes" "1.13" "" false false)
      (get_supported_versions releases "Kubernetes" false false).0
rationalize_supported_example = rationalize_supported releases "Kubernetes" "1.13" "" false false
