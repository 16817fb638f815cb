-- ===== src/Examples/Validation.antt =====
-- ClusterDefinition definitions with good and with bad parts.
use aks_engine.Common.{
  ◌≡◌, refl, String, Bool, true, false, not, none, some, List, [], ◌∷◌, ◌++◌, All, IsDistinct, map,
  ok, err, string_eq, ◌==◌,
}
use aks_engine.Validation.{
  refuse_if, invalid_label_value, duplicate_pool_name, invalid_pool_name, invalid_label_key,
}
use aks_engine.Validation.Names.{
  validate_pool_name, validate_kubernetes_label_key, validate_kubernetes_label_value,
  validate_dns_prefix, validate_image_name_and_group,
}
use aks_engine.Validation.Names.Labels.{is_valid_label, validate_label_value-eq-rule}
use aks_engine.Validation.Networks.{validate_network_plugin_plus_policy}
use aks_engine.Validation.Windows.{validate_password_complexity}
use aks_engine.Validation.Skus.{accelerated_networking_supported}
use aks_engine.Validation.Pools.{
  PoolProfile, ClusterDefinition, availability_set, validate_availability_profile, validate_roles,
  validate_storage_profile, validate_custom_node_labels, validate_backend_pool_ids, validate_distro,
}
use aks_engine.Validation.Pools.Sequence.{validate_agent_pool_profiles}
use aks_engine.Validation.Pools.Sequence.Unchecked.{followed, validate_agent_pool_profiles-followed}
use aks_engine.Validation.Pools.Sequence.Checked.{Passed, validate_agent_pool_profiles-Passed}
use aks_engine.Examples.Releases.{releases}

abbrev fold : String → String → Bool
fold s t = s == t

abbrev any_url : String → Bool
any_url s = true

abbrev pool_of : String → PoolProfile
pool_of name = record {
  name = name;
  os_type = "Linux";
  distro = "ubuntu";
  vm_size = "Standard_D2_v2";
  dns_prefix = "";
  ports = [];
  role = "";
  availability_profile = availability_set;
  storage_profile = "ManagedDisks";
  disk_sizes = [];
  scale_set_priority = "";
  scale_set_eviction_policy = "";
  custom_node_labels = ("example.com/disk", "ssd") ∷ [];
  image_ref = none;
  has_single_placement_group = false;
  accelerated_networking = true;
  vmss_over_provisioning = false;
  auditd = true;
  vmss_node_public_ip = false;
  backend_pool_ids = [];
}

abbrev definition : ClusterDefinition
definition = record {
  orchestrator_type = "Kubernetes";
  orchestrator_release = "";
  orchestrator_version = "1.13.9";
  is_dual_stack = false;
  is_azure_stack = false;
  use_instance_metadata = none;
  windows_profile = none;
}

abbrev pools : List PoolProfile
pools = pool_of "pool1" ∷ pool_of "pool2" ∷ []

accepted : validate_agent_pool_profiles releases fold any_url definition false pools ≡ ok pools
unfolding validate_agent_pool_profiles validate_availability_profile validate_roles
    validate_storage_profile validate_custom_node_labels validate_distro validate_backend_pool_ids
accepted = refl

same_name :
    validate_agent_pool_profiles releases fold any_url definition false
      (pool_of "pool1" ∷ pool_of "pool1" ∷ [])
    ≡ err (duplicate_pool_name "pool1")
unfolding validate_agent_pool_profiles validate_availability_profile validate_roles
    validate_storage_profile validate_custom_node_labels validate_distro validate_backend_pool_ids
same_name = refl

validate_agent_pool_profiles-Passed_example :
    All (Passed releases fold any_url definition false availability_set) pools
    × IsDistinct (map (λ p. p.name) pools)
validate_agent_pool_profiles-Passed_example =
    validate_agent_pool_profiles-Passed releases fold any_url definition false pools pools accepted
      (refl, (refl, tt))

abbrev custom_pool : PoolProfile
custom_pool = record (pool_of "pool1") { image_ref = some ("image", "group") }

-- The pool behind the one with an image reference has no valid name.
validate_agent_pool_profiles-followed_example :
    validate_agent_pool_profiles releases fold any_url definition false
      ((pool_of "pool2" ∷ []) ++ custom_pool ∷ pool_of "Pool-3" ∷ [])
    ≡ followed (pool_of "Pool-3" ∷ []) (
        validate_agent_pool_profiles releases fold any_url definition false
          ((pool_of "pool2" ∷ []) ++ custom_pool ∷ []))
validate_agent_pool_profiles-followed_example =
    validate_agent_pool_profiles-followed releases fold any_url definition false custom_pool "image"
      "group" refl (pool_of "pool2" ∷ []) (pool_of "Pool-3" ∷ [])

bad_name_accepted :
    validate_agent_pool_profiles releases fold any_url definition false
      (pool_of "pool2" ∷ custom_pool ∷ pool_of "Pool-3" ∷ [])
    ≡ ok (pool_of "pool2" ∷ custom_pool ∷ pool_of "Pool-3" ∷ [])
unfolding validate_agent_pool_profiles validate_availability_profile validate_roles
    validate_storage_profile validate_custom_node_labels validate_distro validate_backend_pool_ids
    validate_image_name_and_group
bad_name_accepted = refl

validate_label_value-eq-rule_example :
    validate_kubernetes_label_value "a_b-"
    ≡ refuse_if (not (is_valid_label "a_b-")) (invalid_label_value "a_b-")
validate_label_value-eq-rule_example = validate_label_value-eq-rule "a_b-"

two_dots : validate_kubernetes_label_key "a..b/disk" ≡ err (invalid_label_key "a..b/disk")
unfolding validate_kubernetes_label_key
two_dots = refl

long_name : validate_pool_name "abcdefghijklm" ≡ err (invalid_pool_name "abcdefghijklm")
unfolding validate_pool_name
long_name = refl

dashes : validate_dns_prefix "a-0" ≡ ok tt
unfolding validate_dns_prefix
dashes = refl

plugin_alone : validate_network_plugin_plus_policy "" "azure" ≡ ok tt
unfolding validate_network_plugin_plus_policy
plugin_alone = refl

weak_password : validate_password_complexity fold any_url "azureuser" "replacepassword1" ≡ false
unfolding validate_password_complexity
weak_password = refl

promoted : accelerated_networking_supported "Standard_D2_v2_Promo" ≡ true
unfolding accelerated_networking_supported
promoted = refl
