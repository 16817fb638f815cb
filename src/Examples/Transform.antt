-- ===== src/Examples/Transform.antt =====
-- Small templates, scaled and upgraded, and values of the flag `--set`.
use aks_engine.Common.{
  ◌≡◌, refl, String, true, none, some, List, [], ◌∷◌, map, ok, err, ◌>>=◌, contains, sort_by,
}
use aks_engine.Transform.Json.{Json, str, arr, obj, strs, Fields, end, field, duplicate, items, get}
use aks_engine.Transform.Dependencies.{
  depends_on_field, nsg_resource_type, rt_resource_type, vnet_resource_type, nic_resource_type,
  vm_resource_type, clean_dependencies,
}
use aks_engine.Transform.Masters.Scaled.{scaled_masters}
use aks_engine.Transform.Scaling.{
  drops_for_scaling, scan, nothing_found, note, normalize_for_k8s_vmas_scaling_up,
}
use aks_engine.Transform.Scaling.Kept.{kept, normalize_for_k8s_vmas_scaling_up-eq-kept}
use aks_engine.Transform.Upgrade.{
  PreservedPools, remove_nsg_dependency, normalize_resources_for_k8s_master_upgrade,
}
use aks_engine.Transform.Upgrade.Stays.{Upgraded, normalize_for_master_upgrade-Upgraded}
use aks_engine.Transform.Upgrade.Dependencies.{backwards, clean_dependencies-remove_nsg_dependency}
use aks_engine.Transform.FlagValues.{parse_key_value_pairs}
use aks_engine.Transform.FlagValues.Quoted.{
  assignments, insert_each, parse_key_value_pairs-assignments,
}

abbrev resource : String → String → Json
resource kind name = obj (field "type" (str kind) (field "name" (str name) end))

abbrev network : Json
network = resource vnet_resource_type "vnet"

abbrev routes : Json
routes = resource rt_resource_type "rt"

abbrev security_group : Json
security_group = resource nsg_resource_type "nsg"

abbrev interface : Json
interface = resource nic_resource_type "nic"

abbrev template : List Json
template = interface ∷ network ∷ security_group ∷ routes ∷ []

scaled_template : normalize_for_k8s_vmas_scaling_up template ≡ ok (interface ∷ [])
unfolding normalize_for_k8s_vmas_scaling_up sort_by contains note clean_dependencies
scaled_template = refl

-- A security group that comes first is not removed.
group_first :
    normalize_for_k8s_vmas_scaling_up (security_group ∷ interface ∷ [])
    ≡ ok (security_group ∷ interface ∷ [])
unfolding normalize_for_k8s_vmas_scaling_up sort_by contains note clean_dependencies
group_first = refl

two_tables :
    normalize_for_k8s_vmas_scaling_up (routes ∷ routes ∷ []) ≡ err (duplicate rt_resource_type)
unfolding normalize_for_k8s_vmas_scaling_up sort_by contains note clean_dependencies
two_tables = refl

normalize_for_k8s_vmas_scaling_up-eq-kept_example :
    normalize_for_k8s_vmas_scaling_up template
    ≡ (scan 0 (scaled_masters template) nothing_found >>= λ found. kept 0 (scaled_masters template))
normalize_for_k8s_vmas_scaling_up-eq-kept_example =
    normalize_for_k8s_vmas_scaling_up-eq-kept template

-- fmt.Sprint of the values that no template has as a pool's name
abbrev sprint : Json → String
sprint v = "<nil>"

abbrev pool_vm : Json
pool_vm = obj (
    field "type" (str vm_resource_type) (
      field "name" (str "[concat(variables('pool1VMNamePrefix'))]")
        (field "tags" (obj (field "poolName" (str "pool1") end)) end)))

abbrev no_pools : PreservedPools
no_pools = none

abbrev first_pool : PreservedPools
first_pool = some (("pool1", true) ∷ [])

upgraded_template :
    normalize_resources_for_k8s_master_upgrade sprint true no_pools
      (security_group ∷ pool_vm ∷ network ∷ [])
    ≡ ok (network ∷ [])
unfolding normalize_resources_for_k8s_master_upgrade contains
upgraded_template = refl

preserved_pool :
    normalize_resources_for_k8s_master_upgrade sprint true first_pool
      (security_group ∷ pool_vm ∷ network ∷ [])
    ≡ ok (pool_vm ∷ network ∷ [])
unfolding normalize_resources_for_k8s_master_upgrade contains
preserved_pool = refl

normalize_for_master_upgrade-Upgraded_example :
    Upgraded sprint first_pool (security_group ∷ pool_vm ∷ network ∷ []) (pool_vm ∷ network ∷ [])
normalize_for_master_upgrade-Upgraded_example =
    normalize_for_master_upgrade-Upgraded sprint true first_pool
      (security_group ∷ pool_vm ∷ network ∷ []) (pool_vm ∷ network ∷ []) preserved_pool

abbrev dependencies : List String
dependencies = "[variables('vnetID')]" ∷ "[variables('nsgID')]" ∷ []

abbrev with_network : Fields
with_network =
    field "name" (str "nic") (field depends_on_field (arr (items (map str dependencies))) end)

clean_dependencies-remove_nsg_dependency_example :
    (m' : Fields) × (remove_nsg_dependency "nic" with_network ≡ ok m')
    × (clean_dependencies drops_for_scaling m' ≡ ok m')
    × (get depends_on_field m' ≡ strs (backwards dependencies))
clean_dependencies-remove_nsg_dependency_example =
    clean_dependencies-remove_nsg_dependency drops_for_scaling "nic" with_network dependencies refl
      refl

abbrev two_values : List (String × String)
two_values = ("masterProfile.count", "3") ∷ ("note", "a,b=c") ∷ []

two_values_written : assignments two_values ≡ "masterProfile.count='3',note='a,b=c'"
two_values_written = refl

-- A quote of the other kind within a value in quotes is dropped.
other_quote : parse_key_value_pairs "note='it\"s'" ≡ ("note", "its") ∷ []
unfolding parse_key_value_pairs
other_quote = refl

parse_key_value_pairs-assignments_example :
    parse_key_value_pairs (assignments two_values) ≡ insert_each two_values []
parse_key_value_pairs-assignments_example =
    parse_key_value_pairs-assignments two_values ((refl, refl, refl), ((refl, refl, refl), tt))
