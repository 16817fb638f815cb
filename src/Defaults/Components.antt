-- ===== src/Defaults/Components.antt =====
-- The flags of the control plane: pkg/api/defaults-scheduler.go, defaults-controller-manager.go,
-- defaults-cloud-controller-manager.go and defaults-apiserver.go.
pub mod Effective
use aks_engine.Common.{
  ◌≡◌, refl, String, Bool, true, false, not, ◌&&◌, ◌||◌, Option, none, some, List, [], ◌∷◌, ◌++◌,
  if◌then◌else◌, ◌==◌, string_eq, lookup, insert, delete, ◌<>◌, arith,
}
use aks_engine.Versions.Semver.{Semver}
use aks_engine.Versions.Select.{is_kubernetes_version_ge}
use aks_engine.Defaults.Overlay.{
  Flags, fill_missing, override, or_else, lookup-fill_missing, lookup-override,
}
use aks_engine.Defaults.Gates.{add_default_feature_gates}

-- The fields of api.KubernetesConfig and of api.Properties that these functions read. A pointer to a
-- Boolean is read by `to.Bool`, as false where it is nil. `cluster_name` is the DNS prefix of the
-- master profile or of the hosted one, if there is one.
pub record Settings : Type 0 where
  pub version : String
  pub is_kubernetes : Bool
  pub network_plugin : String
  pub network_policy : String
  pub cluster_subnet : String
  pub service_cidr : String
  pub dns_service_ip : String
  pub kubernetes_image_base : String
  pub cluster_name : Option String
  pub use_cloud_controller_manager : Bool
  pub enable_rbac : Bool
  pub enable_secure_kubelet : Bool
  pub enable_pod_security_policy : Bool
  pub enable_encryption : Bool  -- EnableDataEncryptionAtRest or EnableEncryptionWithExternalKms
  pub enable_aggregated_apis : Bool
  pub has_cosmos_etcd : Bool
  pub aad_profile : Option (String × String)  -- ServerAppID and TenantID
  pub is_china : Bool  -- helpers.GetTargetEnv(…) == "AzureChinaCloud"
  pub etcd_api_version : String  -- "etcd" and the major version
  pub is_ip_masq_agent_enabled : Bool
  pub is_nvidia_device_plugin_enabled : Bool

abbrev pub format_bool : Bool → String
format_bool b = if b then "true" else "false"

abbrev pub is_azure_cni : Settings → Bool
is_azure_cni o = o.network_plugin == "azure"

unfoldable pub require_route_table : Settings → Bool
require_route_table o =
    o.is_kubernetes
    && not (is_azure_cni o || o.network_policy == "cilium" || o.network_plugin == "flannel")

-- A map that the user did not give is the map of the defaults.
abbrev pub or_defaults : Flags → Option Flags → Flags
or_defaults defaults none = defaults
or_defaults defaults (some user) = fill_missing defaults user

abbrev pub or_empty : Option Flags → Flags
or_empty none = []
or_empty (some user) = user

abbrev pub insert_when : Bool → String → String → Flags → Flags
insert_when b k v m = if b then insert k v m else m

abbrev insert_named : Option String → Flags → Flags
insert_named none m = m
insert_named (some name) m = insert "--cluster-name" name m

abbrev pub static_scheduler_config : Flags
static_scheduler_config =
    ("--kubeconfig", "/var/lib/kubelet/kubeconfig") ∷ ("--leader-elect", "true") ∷ []

abbrev pub default_scheduler_config : Flags
default_scheduler_config = ("--v", "2") ∷ ("--profiling", "false") ∷ []

unfoldable pub set_scheduler_config : Option Flags → Flags
unfolding fill_missing override
set_scheduler_config user =
    override static_scheduler_config (fill_missing default_scheduler_config (or_empty user))

abbrev pub static_cloud_controller_manager_config : Settings → Flags
static_cloud_controller_manager_config o = insert_named o.cluster_name (
    ("--allocate-node-cidrs", format_bool (not (is_azure_cni o)))
    ∷ ("--configure-cloud-routes", format_bool (require_route_table o))
    ∷ ("--cloud-provider", "azure")
    ∷ ("--cloud-config", "/etc/kubernetes/azure.json")
    ∷ ("--cluster-cidr", o.cluster_subnet)
    ∷ ("--kubeconfig", "/var/lib/kubelet/kubeconfig")
    ∷ ("--leader-elect", "true")
    ∷ ("--v", "2")
    ∷ [])

abbrev pub default_cloud_controller_manager_config : Flags
default_cloud_controller_manager_config = ("--route-reconciliation-period", "10s") ∷ []

unfoldable pub set_cloud_controller_manager_config : Settings → Option Flags → Flags
unfolding fill_missing override require_route_table
set_cloud_controller_manager_config o user =
    override (static_cloud_controller_manager_config o)
      (or_defaults default_cloud_controller_manager_config user)

abbrev pub static_controller_manager_config : Settings → Flags
static_controller_manager_config o =
    insert_when (not o.use_cloud_controller_manager) "--cloud-config" "/etc/kubernetes/azure.json" (
      insert_when (not o.use_cloud_controller_manager) "--cloud-provider" "azure" (
        insert_named o.cluster_name (
          ("--kubeconfig", "/var/lib/kubelet/kubeconfig")
          ∷ ("--allocate-node-cidrs", format_bool (not (is_azure_cni o)))
          ∷ ("--configure-cloud-routes", format_bool (require_route_table o))
          ∷ ("--cluster-cidr", o.cluster_subnet)
          ∷ ("--root-ca-file", "/etc/kubernetes/certs/ca.crt")
          ∷ ("--cluster-signing-cert-file", "/etc/kubernetes/certs/ca.crt")
          ∷ ("--cluster-signing-key-file", "/etc/kubernetes/certs/ca.key")
          ∷ ("--service-account-private-key-file", "/etc/kubernetes/certs/apiserver.key")
          ∷ ("--leader-elect", "true")
          ∷ ("--v", "2")
          ∷ ("--controllers", "*,bootstrapsigner,tokencleaner")
          ∷ [])))

abbrev pub default_controller_manager_config : Flags
default_controller_manager_config =
    ("--node-monitor-grace-period", "40s")
    ∷ ("--pod-eviction-timeout", "5m0s")
    ∷ ("--route-reconciliation-period", "10s")
    ∷ ("--terminated-pod-gc-threshold", "5000")
    ∷ ("--use-service-account-credentials", "false")
    ∷ ("--profiling", "false")
    ∷ []

module _ (semver : Semver) where
  unfoldable pub set_controller_manager_config : Settings → Option Flags → Flags
  unfolding fill_missing override require_route_table add_default_feature_gates
  set_controller_manager_config o user =
      let given = or_defaults default_controller_manager_config user in
      let excluded =
        add_default_feature_gates semver given o.version "1.9.0" "ServiceNodeExclusion=true" in
      let isolated =
        add_default_feature_gates semver excluded o.version "1.10.0"
          "LocalStorageCapacityIsolation=true" in
      insert_when o.enable_rbac "--use-service-account-credentials" "true"
        (override (static_controller_manager_config o) isolated)
