-- ===== src/Examples/Defaults.antt =====
-- Defaults of a small cluster.
use aks_engine.Common.{
  ◌≡◌, refl, String, Bool, true, false, Option, none, some, List, [], ◌∷◌, ◌||◌, elem, string_eq,
  All,
}
use aks_engine.Defaults.Overlay.{Flags}
use aks_engine.Defaults.Gates.{combine_values}
use aks_engine.Defaults.Components.{Settings, set_scheduler_config}
use aks_engine.Defaults.Kubelet.{Component, AgentKubelet, set_kubelet_config}
use aks_engine.Defaults.Kubelet.Supported.{
  AreSupported, MasterSupported, set_kubelet_config-AreSupported,
}
use aks_engine.Defaults.Addons.{Addon, find_addon, is_some, set_addons_config}
use aks_engine.Defaults.Addons.Names.{names, or_no_addons, is_psp, elem-set_addons_config}
use aks_engine.Examples.Releases.{releases}

-- The later values win, and the names are sorted.
combined : combine_values "B=true, A=false,x" "A=true" ≡ "A=true,B=true"
unfolding combine_values
combined = refl

abbrev settings : Settings
settings = record {
  version = "1.13.9";
  is_kubernetes = true;
  network_plugin = "kubenet";
  network_policy = "";
  cluster_subnet = "10.244.0.0/16";
  service_cidr = "10.0.0.0/16";
  dns_service_ip = "10.0.0.10";
  kubernetes_image_base = "k8s.gcr.io/";
  cluster_name = some "cluster";
  use_cloud_controller_manager = false;
  enable_rbac = true;
  enable_secure_kubelet = true;
  enable_pod_security_policy = false;
  enable_encryption = false;
  enable_aggregated_apis = false;
  has_cosmos_etcd = false;
  aad_profile = none;
  is_china = false;
  etcd_api_version = "etcd3";
  is_ip_masq_agent_enabled = false;
  is_nvidia_device_plugin_enabled = false;
}

abbrev verbose : Option Flags
verbose = some (("--v", "5") ∷ ("--leader-elect", "false") ∷ [])

scheduler_flags :
    set_scheduler_config verbose
    ≡ ("--v", "5")
      ∷ ("--leader-elect", "true")
      ∷ ("--profiling", "false")
      ∷ ("--kubeconfig", "/var/lib/kubelet/kubeconfig")
      ∷ []
unfolding set_scheduler_config
scheduler_flags = refl

abbrev component : Component
component = record { pause = "pause:1.2.0"; node_status_frequency = "10s" }

abbrev agent : AgentKubelet
agent = record {
  is_windows = true;
  vm_size = "Standard_D2_v2";
  user_flags = some (("--cadvisor-port", "0") ∷ []);
}

abbrev agents : List AgentKubelet
agents = agent ∷ []

set_kubelet_config-AreSupported_example :
    AreSupported releases "1.13.9"
      (set_kubelet_config releases true settings component none (some none) agents).cluster_flags
    × MasterSupported releases "1.13.9"
        (set_kubelet_config releases true settings component none (some none) agents).master_flags
    × All
        (AreSupported releases "1.13.9")
        (set_kubelet_config releases true settings component none (some none) agents).agent_flags
set_kubelet_config-AreSupported_example =
    set_kubelet_config-AreSupported releases true settings component none (some none) agents

abbrev addon : String → Option Bool → Addon
addon name enabled = record {
  name = name;
  enabled = enabled;
  containers = [];
  config = none;
  content = "";
}

abbrev default_addons : List Addon
default_addons = addon "tiller" (some true) ∷ addon "calico-daemonset" (some false) ∷ []

abbrev given_addons : Option (List Addon)
given_addons = some (addon "own" (some true) ∷ addon "tiller" none ∷ [])

merged_addons :
    set_addons_config true false none default_addons given_addons
    ≡ some (
        addon "own" (some true)
        ∷ addon "tiller" (some true)
        ∷ addon "calico-daemonset" (some false)
        ∷ [])
unfolding set_addons_config
merged_addons = refl

has_calico : is_some (find_addon "calico-daemonset" default_addons) ≡ true
unfolding find_addon
has_calico = refl

elem-set_addons_config_example :
    (out : List Addon) × (set_addons_config true true (some "policy") default_addons given_addons
      ≡ some out)
    × ((n : String)
        → elem n (names out) ≡ (
            elem n (names (or_no_addons given_addons))
            || elem n (names default_addons)
            || is_psp true (some "policy") n))
elem-set_addons_config_example =
    elem-set_addons_config true true (some "policy") default_addons given_addons has_calico
