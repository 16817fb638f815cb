-- ===== src/Validation/Pools.antt =====
-- pkg/api/vlabs/validate.go: the checks of one agent pool.
pub mod Sequence
use aks_engine.Common.{
  ℕ, String, Bool, true, false, not, ◌&&◌, ◌||◌, Option, none, some, List, [], ◌∷◌, elem, any, ◌++◌,
  if◌then◌else◌, ltb, ◌==◌, string_eq, nat_eq, is_empty, Result, ok, err, ◌>>◌, ◌>>=◌,
}
use aks_engine.Versions.Select.{kubernetes, dcos}
use aks_engine.OrchestratorData.{swarm, swarm_mode}
use aks_engine.Versions.Semver.{Semver}
use aks_engine.Versions.Select.{rationalize_release_and_version}
use aks_engine.Validation.{
  ValidationError, Check, refuse_if, only_if, windows_unsupported, windows_profile_missing,
  invalid_os_type, accelerated_on_azure_stack, accelerated_unsupported, dns_prefix_not_empty,
  ports_not_empty, eviction_policy_not_empty, disks_storage_profile, disks_availability_profile,
  disks_storage_account, unknown_availability_profile, unsupported_role, unsupported_storage,
  labels_unsupported, version_unsupported, version_unparsed, vmss_needs_version,
  vmss_metadata_needs_version, vmss_storage_account, empty_backend_pool_id, deprecated_distro,
  unsupported_distro,
}
use aks_engine.Validation.Names.{
  validate_dns_prefix, validate_unique_ports, validate_kubernetes_label_key,
  validate_kubernetes_label_value,
}
use aks_engine.Validation.Skus.{accelerated_networking_supported}
use aks_engine.Validation.Windows.{WindowsProfile, validate_windows_profile}

-- The fields of vlabs.AgentPoolProfile that the checks read. A pointer to a Boolean is read by
-- `to.Bool`, as false where it is nil; an image reference is its name and its resource group.
pub record PoolProfile : Type 0 where
  pub name : String
  pub os_type : String
  pub distro : String
  pub vm_size : String
  pub dns_prefix : String
  pub ports : List ℕ
  pub role : String
  pub availability_profile : String
  pub storage_profile : String
  pub disk_sizes : List ℕ
  pub scale_set_priority : String
  pub scale_set_eviction_policy : String
  pub custom_node_labels : List (String × String)
  pub image_ref : Option (String × String)
  pub has_single_placement_group : Bool
  pub accelerated_networking : Bool  -- AcceleratedNetworkingEnabled or …EnabledWindows
  pub vmss_over_provisioning : Bool
  pub auditd : Bool
  pub vmss_node_public_ip : Bool
  pub backend_pool_ids : List String

-- The fields of the cluster. `use_instance_metadata` is a pointer in a KubernetesConfig.
pub record ClusterDefinition : Type 0 where
  pub orchestrator_type : String
  pub orchestrator_release : String
  pub orchestrator_version : String
  pub is_dual_stack : Bool
  pub is_azure_stack : Bool
  pub use_instance_metadata : Option Bool
  pub windows_profile : Option WindowsProfile

abbrev pub availability_set : String
availability_set = "AvailabilitySet"

abbrev pub scale_sets : String
scale_sets = "VirtualMachineScaleSets"

abbrev pub storage_account : String
storage_account = "StorageAccount"

abbrev pub managed_disks : String
managed_disks = "ManagedDisks"

abbrev pub ephemeral : String
ephemeral = "Ephemeral"

abbrev pub windows : String
windows = "Windows"

abbrev pub core_os : String
core_os = "coreos"

-- IsUbuntu1604 or IsUbuntu1804
abbrev pub is_ubuntu : PoolProfile → Bool
is_ubuntu a =
    not (a.os_type == windows)
    && elem a.distro
        ("aks-ubuntu-16.04" ∷ "ubuntu" ∷ "acc-16.04" ∷ "aks-ubuntu-18.04" ∷ "ubuntu-18.04" ∷ [])

abbrev is_nil {ℓ} : {A : Type ℓ} → List A → Bool
is_nil [] = true
is_nil (x ∷ xs) = false

unfoldable pub validate_pool_os_type : String → Check
validate_pool_os_type os =
    refuse_if (not (os == "Linux") && not (os == windows) && not (is_empty os)) invalid_os_type

unfoldable pub validate_accelerated_networking : ClusterDefinition → PoolProfile → Check
unfolding accelerated_networking_supported
validate_accelerated_networking c a =
    if a.accelerated_networking
    then (if c.is_azure_stack
        then err accelerated_on_azure_stack
        else refuse_if (not (accelerated_networking_supported a.vm_size))
            (accelerated_unsupported a.vm_size))
    else ok tt

-- The ports of a pool with a DNS prefix and without ports become the default ones.
abbrev pub checked_ports : PoolProfile → List ℕ → Result ValidationError PoolProfile
checked_ports a [] = ok (record a { ports = 80 ∷ 443 ∷ 8080 ∷ [] })
checked_ports a (port ∷ ports) = validate_unique_ports (port ∷ ports) a.name >>= λ _. ok a

abbrev pub checked_prefix : PoolProfile → Result ValidationError PoolProfile
checked_prefix a =
    if is_empty a.dns_prefix
    then (refuse_if (not (is_nil a.ports)) ports_not_empty >>= λ _. ok a)
    else (validate_dns_prefix a.dns_prefix >>= λ _. checked_ports a a.ports)

abbrev pub checked_disks : PoolProfile → Check
checked_disks a =
    if is_nil a.disk_sizes
    then ok tt
    else refuse_if
        (not (a.storage_profile == storage_account || a.storage_profile == managed_disks))
        disks_storage_profile
      >> refuse_if
          (not (a.availability_profile == scale_sets || a.availability_profile == availability_set))
          disks_availability_profile
      >> refuse_if (a.storage_profile == storage_account && a.availability_profile == scale_sets)
          disks_storage_account

abbrev pub kubernetes_only : PoolProfile → Check
kubernetes_only a = do
  refuse_if (not (is_empty a.dns_prefix)) dns_prefix_not_empty
  refuse_if (not (is_nil a.ports)) ports_not_empty
  refuse_if (a.scale_set_priority == "Regular" && not (is_empty a.scale_set_eviction_policy))
      eviction_policy_not_empty

unfoldable pub validate_orchestrator_specific_properties :
    String → PoolProfile → Result ValidationError PoolProfile
unfolding validate_dns_prefix validate_unique_ports
validate_orchestrator_specific_properties orchestrator_type a =
    only_if (orchestrator_type == kubernetes) (kubernetes_only a) >>= λ _.
    checked_prefix a >>= λ checked. checked_disks a >>= λ _. ok checked

unfoldable pub validate_availability_profile : PoolProfile → Check
validate_availability_profile a =
    refuse_if (not (elem a.availability_profile (availability_set ∷ scale_sets ∷ "" ∷ [])))
      (unknown_availability_profile a.name)

unfoldable pub validate_roles : PoolProfile → Check
validate_roles a = refuse_if (not (elem a.role ("" ∷ []))) (unsupported_role a.role)

abbrev orchestrators : List String
orchestrators = dcos ∷ swarm ∷ kubernetes ∷ swarm_mode ∷ []

-- A case without statements is left, so that DC/OS and Swarm pass the test for ephemeral disks.
unfoldable pub validate_storage_profile : String → PoolProfile → Check
validate_storage_profile orchestrator_type a = do
  refuse_if (a.storage_profile == managed_disks && not (elem orchestrator_type orchestrators))
      (unsupported_storage orchestrator_type)
  refuse_if (a.storage_profile == ephemeral && not (elem orchestrator_type orchestrators))
      (unsupported_storage orchestrator_type)

unfoldable pub validate_labels : List (String × String) → Check
unfolding validate_kubernetes_label_key validate_kubernetes_label_value
validate_labels [] = ok tt
validate_labels ((k, v) ∷ labels) = do
  validate_kubernetes_label_key k
  validate_kubernetes_label_value v
  validate_labels labels

unfoldable pub validate_custom_node_labels : String → PoolProfile → Check
unfolding validate_labels
validate_custom_node_labels orchestrator_type a =
    if is_nil a.custom_node_labels || orchestrator_type == dcos
    then ok tt
    else if orchestrator_type == kubernetes
    then validate_labels a.custom_node_labels
    else err labels_unsupported

unfoldable pub validate_backend_pool_ids : String → List String → Check
validate_backend_pool_ids name ids = refuse_if (any is_empty ids) (empty_backend_pool_id name)

abbrev pub distro_values : Bool → List String
distro_values is_update =
    let values =
      "" ∷ "ubuntu" ∷ "ubuntu-18.04" ∷ "rhel" ∷ core_os ∷ "aks-ubuntu-16.04" ∷ "aks-ubuntu-18.04"
      ∷ "acc-16.04" ∷ [] in
    if is_update then values ++ "aks-docker-engine" ∷ "aks" ∷ "aks-1804" ∷ [] else values

-- What is to be used instead of a deprecated distribution.
abbrev distro_error : String → ValidationError
distro_error distro =
    if elem distro ("aks-docker-engine" ∷ "aks" ∷ [])
    then deprecated_distro distro "aks-ubuntu-16.04"
    else if distro == "aks-1804"
    then deprecated_distro distro "aks-ubuntu-18.04"
    else unsupported_distro distro

unfoldable pub validate_distro : Bool → String → Check
validate_distro is_update distro =
    refuse_if (not (elem distro (distro_values is_update))) (distro_error distro)
