-- ===== src/Examples/Orchestrators.antt =====
-- The theorems on upgrades and profiles, at small inputs.
use aks_engine.Common.{
  String, ◌≡◌, ◌≢◌, refl, false, List, [], ◌∷◌, ok, err, sort_by, decimal, ◌==◌, string_eq,
}
use aks_engine.Versions.Table.{all_kubernetes_supported_versions}
use aks_engine.Versions.Select.{
  get_all_supported_kubernetes_versions, get_versions_gt, get_versions_lt, get_versions_between,
  intersect, copies, passes_gt, passes_lt, supported_map, usable_keys, is_kubernetes_version_ge,
  get_default_kubernetes_version, get_min_version, get_sorted_semver_versions,
}
use aks_engine.Orchestrators.{
  get_kubernetes_available_upgrade_versions, get_orchestrator_version_profile, kubernetes_info,
  kubernetes_upgrades, is_version_supported, versions_map,
}
use aks_engine.OrchestratorData.{panicked, OrchestratorProfile, OrchestratorVersionProfile}
use aks_engine.Orchestrators.Upgrades.{Offers, available_upgrades-Offers, available_upgrades_safe}
use aks_engine.Orchestrators.Profiles.{IsProfile, get_orchestrator_version_profile-IsProfile}
use aks_engine.Examples.Releases.{releases, releases_laws}

abbrev some_versions : List String
some_versions = "1.12.8" ∷ "1.13.8" ∷ "1.13.9" ∷ "1.14.5" ∷ []

upgrades_of_12 :
    get_kubernetes_available_upgrade_versions releases "1.12.8" some_versions
    ≡ ok ("1.13.8" ∷ "1.13.9" ∷ [])
unfolding get_kubernetes_available_upgrade_versions get_versions_between get_versions_gt
    get_versions_lt intersect copies passes_gt passes_lt get_min_version get_sorted_semver_versions
    sort_by decimal
upgrades_of_12 = refl

available_upgrades-Offers_example :
    Offers releases "1.12.8" some_versions ("1.13.8" ∷ "1.13.9" ∷ [])
available_upgrades-Offers_example =
    available_upgrades-Offers releases "1.12.8" some_versions ("1.13.8" ∷ "1.13.9" ∷ [])
      upgrades_of_12

available_upgrades_safe_example :
    get_kubernetes_available_upgrade_versions releases "1.12.8" some_versions ≢ err panicked
available_upgrades_safe_example =
    available_upgrades_safe releases releases_laws "1.12.8" some_versions

abbrev asked : OrchestratorProfile
asked = record { orchestrator_type = "Kubernetes"; orchestrator_version = "1.13.9" }

abbrev answered : OrchestratorVersionProfile
answered = record {
  orchestrator_type = "Kubernetes";
  orchestrator_version = "1.13.9";
  is_default = "1.13.9" == get_default_kubernetes_version releases false;
  upgrades = record { orchestrator_type = "Kubernetes"; orchestrator_version = "1.14.5" } ∷ [];
}

asked_profile : get_orchestrator_version_profile releases asked false ≡ ok answered
unfolding get_orchestrator_version_profile kubernetes_info is_version_supported versions_map
    get_all_supported_kubernetes_versions all_kubernetes_supported_versions kubernetes_upgrades
    get_kubernetes_available_upgrade_versions get_versions_gt passes_gt passes_lt get_versions_lt
    get_versions_between intersect copies get_min_version get_sorted_semver_versions sort_by decimal
    supported_map usable_keys is_kubernetes_version_ge
asked_profile = refl

get_orchestrator_version_profile-IsProfile_example : IsProfile releases false "1.13.9" answered
get_orchestrator_version_profile-IsProfile_example =
    get_orchestrator_version_profile-IsProfile releases asked false answered refl asked_profile
