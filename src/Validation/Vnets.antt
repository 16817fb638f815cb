-- ===== src/Validation/Vnets.antt =====
-- pkg/api/vlabs/validate.go: the checks of virtual networks and of availability zones.
pub mod Same
use aks_engine.Common.{
  String, Bool, true, false, not, ◌&&◌, ◌||◌, Option, none, some, List, [], ◌∷◌, any, if◌then◌else◌,
  ◌==◌, string_eq, is_empty, Result, ok, err, ◌>>◌, ◌>>=◌,
}
use aks_engine.Networks.SubnetIds.{SubnetParts, get_vnet_subnet_id_components}
use aks_engine.Versions.Select.{kubernetes}
use aks_engine.Validation.{
  ValidationError, Check, refuse_if, only_if, several_subnet_configurations, agent_subnet_missing,
  invalid_subnet_id, several_vnets, invalid_master_first_ip, invalid_vnet_cidr,
  zones_with_availability_set, zones_without_standard_sku, zones_not_everywhere,
}

-- The fields of vlabs.MasterProfile that the checks read.
pub record MasterNetwork : Type 0 where
  pub vnet_subnet_id : String
  pub agent_vnet_subnet_id : String
  pub first_consecutive_static_ip : String
  pub vnet_cidr : String
  pub is_scale_sets : Bool

abbrev pub is_custom_vnet : String → Bool
is_custom_vnet vnet_subnet_id = not (is_empty vnet_subnet_id)

abbrev pub is_same_vnet : SubnetParts → SubnetParts → Bool
is_same_vnet a b =
    a.subscription_id == b.subscription_id
    && a.resource_group == b.resource_group
    && a.vnet_name == b.vnet_name

abbrev pub parsed_subnet : Option SubnetParts → Result ValidationError SubnetParts
parsed_subnet none = err invalid_subnet_id
parsed_subnet (some parts) = ok parts

-- The loop over the subnets of the pools.
unfoldable pub check_vnets : SubnetParts → List String → Check
check_vnets parts [] = ok tt
check_vnets parts (id ∷ ids) = parsed_subnet (get_vnet_subnet_id_components id) >>= λ agent.
    refuse_if (not (is_same_vnet agent parts)) several_vnets >>= λ _. check_vnets parts ids

-- `parses_ip` and `parses_cidr` are the success of net.ParseIP and net.ParseCIDR; `subnets` are the
-- subnets of the agent pools.
module _ (parses_ip : String → Bool) (parses_cidr : String → Bool) where
  unfoldable pub check_addresses : MasterNetwork → Check
  check_addresses m = do
    refuse_if (not (parses_ip m.first_consecutive_static_ip) && not m.is_scale_sets)
        (invalid_master_first_ip m.first_consecutive_static_ip)
    refuse_if (not (is_empty m.vnet_cidr) && not (parses_cidr m.vnet_cidr))
        (invalid_vnet_cidr m.vnet_cidr)

  unfoldable pub check_custom_vnet : MasterNetwork → List String → Check
  unfolding check_vnets check_addresses
  check_custom_vnet m subnets =
      refuse_if (m.is_scale_sets && is_empty m.agent_vnet_subnet_id) agent_subnet_missing >>= λ _.
      parsed_subnet (get_vnet_subnet_id_components m.vnet_subnet_id) >>= λ parts.
      check_vnets parts subnets >>= λ _. check_addresses m

  unfoldable pub validate_vnet : MasterNetwork → List String → Check
  unfolding check_custom_vnet
  validate_vnet m subnets =
      let is_custom = is_custom_vnet m.vnet_subnet_id in
      refuse_if
        (any (λ id. if is_custom then not (is_custom_vnet id) else is_custom_vnet id) subnets)
        several_subnet_configurations
      >>= λ _. only_if is_custom (check_custom_vnet m subnets)

-- Whether a pool has zones, and its availability profile.
abbrev uses_other_sku : (String → String → Bool) → Option String → Bool
uses_other_sku equal_lower none = false
uses_other_sku equal_lower (some sku) = not (is_empty sku) && not (equal_lower sku "Standard")

-- `equal_lower` compares two texts by strings.ToLower; `load_balancer_sku` is the field of the
-- KubernetesConfig, if there is one.
unfoldable pub validate_zones :
    (String → String → Bool) → String → Bool → List (Bool × String) → Option String → Check
validate_zones equal_lower orchestrator_type master_has_zones pools load_balancer_sku =
    only_if (orchestrator_type == kubernetes && (master_has_zones || any (λ p. p.0) pools)) (do
      refuse_if (not master_has_zones || any (λ p. not p.0) pools) zones_not_everywhere
      refuse_if (any (λ p. p.1 == "AvailabilitySet") pools) zones_with_availability_set
      refuse_if (uses_other_sku equal_lower load_balancer_sku) zones_without_standard_sku)
