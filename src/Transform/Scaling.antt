-- ===== src/Transform/Scaling.antt =====
-- pkg/engine/transform/transform.go: `NormalizeForK8sVMASScalingUp` and
-- `NormalizeForK8sSLBScalingOrUpgrade`, on the resources of a template.
pub mod Notes
pub mod Kept
use aks_engine.Common.{
  ℕ, zero, suc, String, Bool, true, false, not, ◌&&◌, ◌||◌, Option, none, some, List, [], ◌∷◌, ◌++◌,
  if◌then◌else◌, ◌==◌, string_eq, contains, ◌>>=◌, ok, err,
}
use aks_engine.Transform.Json.{
  Json, obj, Fields, Outcome, duplicate, get, as_map, as_string, or_panic,
}
use aks_engine.Transform.Dependencies.{
  name_field, type_field, nsg_resource_type, rt_resource_type, vnet_resource_type,
  vmas_resource_type, lb_resource_type, clean_dependencies,
}
use aks_engine.Transform.Removal.{remove_indexes_from_array}
use aks_engine.Transform.Masters.{normalize_master_resources_for_scaling}

-- The indexes that the loop finds; `none` is -1.
pub record Found : Type 0 where
  pub rt_index : Option ℕ
  pub nsg_index : Option ℕ
  pub vnet_index : Option ℕ
  pub vmas_indexes : List ℕ

abbrev pub nothing_found : Found
nothing_found = record { rt_index = none; nsg_index = none; vnet_index = none; vmas_indexes = [] }

abbrev pub is_scaled_nsg : String → String → Bool
is_scaled_nsg kind name =
    kind == nsg_resource_type && not (contains name "variables('jumpboxNetworkSecurityGroupName')")

abbrev pub once : String → Option ℕ → Found → Outcome Found
once kind none found = ok found
once kind (some i) found = err (duplicate kind)

-- A resource has one type, so that at most one of the tests holds.
unfoldable pub note : ℕ → Option String → String → Found → Outcome Found
note index none name f = ok f
note index (some kind) name f =
    if is_scaled_nsg kind name
    then once nsg_resource_type f.nsg_index (record f { nsg_index = some index })
    else if kind == rt_resource_type
    then once rt_resource_type f.rt_index (record f { rt_index = some index })
    else if kind == vnet_resource_type
    then once vnet_resource_type f.vnet_index (record f { vnet_index = some index })
    else if kind == vmas_resource_type
    then ok (record f { vmas_indexes = f.vmas_indexes ++ index ∷ [] })
    else ok f

abbrev pub drops_for_scaling : String → Bool
drops_for_scaling dependency =
    contains dependency nsg_resource_type
    || contains dependency "nsgID"
    || contains dependency rt_resource_type
    || contains dependency "routeTableID"
    || contains dependency vnet_resource_type
    || contains dependency "vnetID"
    || contains dependency vmas_resource_type

abbrev pub visit_map : ℕ → Json → Option Fields → Found → Outcome (Found × Json)
visit_map index resource none f = ok (f, resource)
visit_map index resource (some m) f = do
  name ← or_panic (as_string (get name_field m))
  found ← note index (as_string (get type_field m)) name f
  cleaned ← clean_dependencies drops_for_scaling m
  ok (found, obj cleaned)

unfoldable pub scan : ℕ → List Json → Found → Outcome (Found × List Json)
scan index [] f = ok (f, [])
scan index (resource ∷ resources) f = do
  here ← visit_map index resource (as_map resource) f
  later ← scan (suc index) resources here.0
  ok (later.0, here.1 ∷ later.1)

abbrev pub found_index : Option ℕ → List ℕ
found_index none = []
found_index (some i) = i ∷ []

-- nsgIndex > 0
abbrev pub positive_index : Option ℕ → List ℕ
positive_index none = []
positive_index (some zero) = []
positive_index (some (suc i)) = suc i ∷ []

unfoldable pub indexes_to_remove : Found → List ℕ
indexes_to_remove f =
    found_index f.rt_index
    ++ (found_index f.vnet_index ++ (f.vmas_indexes ++ positive_index f.nsg_index))

unfoldable pub remove_unwanted : List Json → Outcome (List Json)
unfolding scan indexes_to_remove remove_indexes_from_array
remove_unwanted resources = do
  found ← scan 0 resources nothing_found
  or_panic (remove_indexes_from_array found.1 (indexes_to_remove found.0))

unfoldable pub normalize_for_k8s_vmas_scaling_up : List Json → Outcome (List Json)
unfolding normalize_master_resources_for_scaling remove_unwanted
normalize_for_k8s_vmas_scaling_up resources =
    normalize_master_resources_for_scaling resources >>= remove_unwanted

-- The balancer of the agents: the last resource that passes the test.
abbrev pub lb_index_after : ℕ → Option String → String → Option ℕ → Option ℕ
lb_index_after index none name lb = lb
lb_index_after index (some kind) name lb =
    if kind == lb_resource_type && contains name "variables('agentLbName')" then some index else lb

abbrev pub drops_for_slb : String → Bool
drops_for_slb dependency = contains dependency lb_resource_type || contains dependency "agentLbID"

abbrev pub visit_slb : ℕ → Json → Option Fields → Option ℕ → Outcome (Option ℕ × Json)
visit_slb index resource none lb = ok (lb, resource)
visit_slb index resource (some m) lb = do
  name ← or_panic (as_string (get name_field m))
  cleaned ← clean_dependencies drops_for_slb m
  ok (lb_index_after index (as_string (get type_field m)) name lb, obj cleaned)

unfoldable pub scan_slb : ℕ → List Json → Option ℕ → Outcome (Option ℕ × List Json)
scan_slb index [] lb = ok (lb, [])
scan_slb index (resource ∷ resources) lb = do
  here ← visit_slb index resource (as_map resource) lb
  later ← scan_slb (suc index) resources here.0
  ok (later.0, here.1 ∷ later.1)

unfoldable pub normalize_for_k8s_slb_scaling_or_upgrade : List Json → Outcome (List Json)
unfolding scan_slb remove_indexes_from_array
normalize_for_k8s_slb_scaling_or_upgrade resources = do
  found ← scan_slb 0 resources none
  or_panic (remove_indexes_from_array found.1 (found_index found.0))
