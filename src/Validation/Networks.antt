-- ===== src/Validation/Networks.antt =====
-- pkg/api/vlabs/validate.go: the checks of the network plugin, of the network policy and of the
-- container runtime.
use aks_engine.Common.{
  String, Bool, not, ◌&&◌, ◌||◌, Option, none, some, List, [], ◌∷◌, elem, any, if◌then◌else◌, ◌==◌,
  string_eq, ok, ◌>>◌,
}
use aks_engine.Versions.Semver.{Semver}
use aks_engine.Versions.Select.{is_kubernetes_version_ge}
use aks_engine.Versions.Select.{kubernetes}
use aks_engine.Validation.{
  Check, refuse_if, unknown_network_plugin, unknown_network_policy, policy_needs_version,
  policy_without_windows, plugin_and_policy, unknown_container_runtime, runtime_without_windows,
}

abbrev pub network_plugin_values : List String
network_plugin_values = "" ∷ "kubenet" ∷ "azure" ∷ "cilium" ∷ "flannel" ∷ []

abbrev pub network_policy_values : List String
network_policy_values = "" ∷ "calico" ∷ "cilium" ∷ "azure" ∷ "none" ∷ []

abbrev pub container_runtime_values : List String
container_runtime_values = "" ∷ "docker" ∷ "kata-containers" ∷ "containerd" ∷ []

unfoldable pub validate_network_plugin : String → Check
validate_network_plugin plugin =
    refuse_if (not (elem plugin network_plugin_values)) (unknown_network_plugin plugin)

module _ (semver : Semver) where
  unfoldable pub validate_network_policy : String → String → String → Bool → Check
  validate_network_policy policy plugin k8s_version has_windows = do
    refuse_if (not (elem policy network_policy_values)) (unknown_network_policy policy)
    refuse_if
        (policy == "azure"
          && plugin == "azure"
          && not (is_kubernetes_version_ge semver k8s_version "1.8.0"))
        policy_needs_version
    refuse_if ((policy == "calico" || policy == "cilium" || policy == "flannel") && has_windows)
        (policy_without_windows policy)

-- networkPluginPlusPolicyAllowed: a plugin and its policy.
abbrev pub network_plugin_plus_policy_allowed : List (String × String)
network_plugin_plus_policy_allowed =
    ("", "")
    ∷ ("azure", "")
    ∷ ("azure", "azure")
    ∷ ("kubenet", "")
    ∷ ("flannel", "")
    ∷ ("cilium", "")
    ∷ ("cilium", "cilium")
    ∷ ("kubenet", "calico")
    ∷ ("azure", "calico")
    ∷ ("", "calico")
    ∷ ("", "cilium")
    ∷ ("", "azure")
    ∷ ("", "none")
    ∷ []

unfoldable pub validate_network_plugin_plus_policy : String → String → Check
validate_network_plugin_plus_policy plugin policy =
    refuse_if (not (any (λ c. c.0 == plugin && c.1 == policy) network_plugin_plus_policy_allowed))
      (plugin_and_policy policy plugin)

-- A cluster without a KubernetesConfig has the runtime "".
abbrev runtime_or_empty : Option String → String
runtime_or_empty none = ""
runtime_or_empty (some runtime) = runtime

unfoldable pub validate_container_runtime : String → Option String → Bool → Check
validate_container_runtime orchestrator_type config has_windows =
    let runtime = runtime_or_empty config in
    if orchestrator_type == kubernetes
    then refuse_if (not (elem runtime container_runtime_values)) (unknown_container_runtime runtime)
      >> refuse_if ((runtime == "kata-containers" || runtime == "containerd") && has_windows)
          (runtime_without_windows runtime)
    else ok tt
