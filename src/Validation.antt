-- ===== src/Validation.antt =====
-- pkg/api/vlabs/validate.go: the checks of a cluster definition. A check that passes returns nil.
pub mod Names
pub mod Networks
pub mod Windows
pub mod Skus
pub mod Vnets
pub mod Kubernetes
pub mod Orchestrator
pub mod Pools
use aks_engine.Common.{ℕ, String, Bool, Result, ok, err, if◌then◌else◌}

-- One constructor for each message, with what the message names.
pub data ValidationError : Type 0 where
  invalid_pool_name : String → ValidationError
  invalid_dns_prefix : String → ValidationError
  duplicate_port : String → ℕ → ValidationError
  invalid_label_value : String → ValidationError
  invalid_label_key : String → ValidationError
  label_key_prefix_too_long : String → ValidationError
  invalid_etcd_version : String → ValidationError
  invalid_containerd_version : String → ValidationError
  image_name_missing : ValidationError
  image_group_missing : ValidationError
  unknown_network_plugin : String → ValidationError
  unknown_network_policy : String → ValidationError
  policy_needs_version : ValidationError
  policy_without_windows : String → ValidationError
  plugin_and_policy : String → String → ValidationError
  unknown_container_runtime : String → ValidationError
  runtime_without_windows : String → ValidationError
  empty_certificates : ValidationError
  source_vault_missing : ValidationError
  source_vault_id_missing : ValidationError
  invalid_certificate_url : String → ValidationError
  certificate_store_missing : ValidationError
  custom_windows_image : ValidationError
  admin_username_missing : ValidationError
  admin_password_missing : ValidationError
  weak_admin_password : ValidationError
  windows_unsupported : String → ValidationError
  windows_profile_missing : ValidationError
  dual_stack_windows : String → ValidationError
  dual_stack_core_os : String → ValidationError
  duplicate_pool_name : String → ValidationError
  invalid_os_type : ValidationError
  accelerated_on_azure_stack : ValidationError
  accelerated_unsupported : String → ValidationError
  overprovisioning_without_vmss : String → ValidationError
  auditd_without_ubuntu : String → ValidationError
  public_ip_without_vmss : String → ValidationError
  dns_prefix_not_empty : ValidationError
  ports_not_empty : ValidationError
  eviction_policy_not_empty : ValidationError
  disks_storage_profile : ValidationError
  disks_availability_profile : ValidationError
  disks_storage_account : ValidationError
  unknown_availability_profile : String → ValidationError
  unsupported_role : String → ValidationError
  unsupported_storage : String → ValidationError
  labels_unsupported : ValidationError
  version_unsupported : ValidationError
  version_unparsed : String → ValidationError
  vmss_needs_version : ValidationError
  vmss_metadata_needs_version : ValidationError
  vmss_storage_account : ValidationError
  mixed_availability_profiles : ValidationError
  single_placement_group : ValidationError
  deprecated_distro : String → String → ValidationError
  unsupported_distro : String → ValidationError
  empty_backend_pool_id : String → ValidationError
  several_subnet_configurations : ValidationError
  agent_subnet_missing : ValidationError
  invalid_subnet_id : ValidationError
  several_vnets : ValidationError
  invalid_master_first_ip : String → ValidationError
  invalid_vnet_cidr : String → ValidationError
  zones_with_availability_set : ValidationError
  zones_without_standard_sku : ValidationError
  zones_not_everywhere : ValidationError
  dual_stack_plugin : String → ValidationError
  invalid_cluster_subnet : String → ValidationError
  too_many_cluster_subnets : String → ValidationError
  cluster_subnet_too_small : String → ValidationError
  invalid_docker_bridge : String → ValidationError
  max_pods_too_small : ValidationError
  invalid_duration : String → String → ValidationError
  too_few_retries : ValidationError
  dns_service_ip_missing : ValidationError
  service_cidr_missing : ValidationError
  invalid_dns_service_ip : String → ValidationError
  invalid_service_cidr : String → ValidationError
  dns_outside_service_cidr : ValidationError
  dns_is_broadcast : ValidationError
  dns_is_first : ValidationError
  panicked : ValidationError
  invalid_proxy_mode : String → ValidationError
  containerd_with_docker : ValidationError
  ccm_needs_version : ValidationError
  hyperkube_image_missing : ValidationError
  unsupported_orchestrator_version : Bool → ValidationError
  invalid_bootstrap_ip : String → ValidationError
  zones_need_version : ValidationError
  aggregated_apis_need_version : ValidationError
  aggregated_apis_need_rbac : ValidationError
  encryption_needs_version : ValidationError
  etcd_key_not_base64 : ValidationError
  kms_needs_version : ValidationError
  pod_security_needs_rbac : ValidationError
  pod_security_needs_version : ValidationError
  invalid_load_balancer_sku : ValidationError
  load_balancer_sku_needs_version : ValidationError
  masters_in_standard_lb : ValidationError
  negative_rule_count : ValidationError
  invalid_idle_timeout : ValidationError
  metadata_on_azure_stack : ValidationError
  invalid_etcd_disk_size : ValidationError
  etcd_disk_too_large : ValidationError
  unknown_orchestrator : String → ValidationError
  kubernetes_config_elsewhere : ValidationError
  dcos_config_elsewhere : ValidationError

abbrev pub Check : Type 0
Check = Result ValidationError (Unit {0})

-- if b { return e }
abbrev pub refuse_if : Bool → ValidationError → Check
refuse_if b e = if b then err e else ok tt

-- if b { return the result of the check, if that is not nil }
abbrev pub only_if : Bool → Check → Check
only_if b check = if b then check else ok tt
