-- ===== src/Transform/Upgrade.antt =====
-- pkg/engine/transform/transform.go: `NormalizeResourcesForK8sMasterUpgrade`, `RemoveNsgDependency`
-- and `NormalizeResourcesForK8sAgentUpgrade`, on the resources of a template.
pub mod Same
pub mod Judged
pub mod Stays
pub mod Dependencies
use aks_engine.Common.{
  String, Bool, true, false, not, ◌&&◌, ◌||◌, Option, none, some, List, [], ◌∷◌, ◌++◌, any,
  if◌then◌else◌, ◌==◌, string_eq, contains, is_empty, lookup, ◌<>◌, ◌>>=◌, ok, err,
}
use aks_engine.Transform.Json.{
  Json, null, str, arr, obj, strs, managed_disk, nil, cons, Fields, Outcome, panic, get, put,
  as_map, as_list, as_string, or_panic, is_set,
}
use aks_engine.Transform.Dependencies.{
  name_field, type_field, properties_field, depends_on_field, nsg_resource_type, vnet_resource_type,
  lb_resource_type, vm_resource_type, vm_extension_type, nic_resource_type, vmss_resource_type,
  master_prefix,
}
use aks_engine.Transform.Scaling.{normalize_for_k8s_vmas_scaling_up}

-- `map[string]bool`; `none` is nil.
abbrev pub PreservedPools : Type 0
PreservedPools = Option (List (String × Bool))

abbrev pub names_nsg : String → Bool
names_nsg dependency = contains dependency nsg_resource_type || contains dependency "nsgID"

-- The dependencies that are left, from the last to the first.
unfoldable pub filtered_dependencies : List Json → Outcome (List String)
filtered_dependencies [] = ok []
filtered_dependencies (d ∷ ds) = do
  later ← filtered_dependencies ds
  dependency ← or_panic (as_string d)
  ok (if names_nsg dependency then later else later ++ dependency ∷ [])

abbrev pub without_nsg : Fields → Option (List Json) → Outcome Fields
without_nsg m none = ok m
without_nsg m (some ds) =
    filtered_dependencies ds >>= λ filtered. ok (put depends_on_field (strs filtered) m)

unfoldable pub remove_nsg_dependency : String → Fields → Outcome Fields
unfolding filtered_dependencies
remove_nsg_dependency name m =
    if is_empty name then ok m else without_nsg m (as_list (get depends_on_field m))

-- The first of the data disks is attached, and made a managed disk. An element that is no object is
-- a nil map, which cannot be written to.
abbrev pub etcd_disk : String
etcd_disk =
    "[concat('/subscriptions/', variables('subscriptionId'), '/resourceGroups/', variables('resourceGroup'),'/providers/Microsoft.Compute/disks/', variables('masterVMNamePrefix'), copyIndex(variables('masterOffset')),'-etcddisk')]"

abbrev pub attached : Bool → Fields → Fields
attached is_managed disk =
    let m = put "createOption" (str "attach") disk in
    if is_managed then put "managedDisk" (managed_disk etcd_disk) m else m

abbrev pub attach_first : Bool → Json → Outcome Json
attach_first is_managed (arr (cons (obj disk) disks)) =
    ok (arr (cons (obj (attached is_managed disk)) disks))
attach_first is_managed _ = err panic

abbrev pub in_storage : Bool → Fields → Fields → Option Fields → Outcome Fields
in_storage is_managed m properties none = ok m
in_storage is_managed m properties (some storage) = do
  disks ← attach_first is_managed (get "dataDisks" storage)
  ok (
      put properties_field
        (obj (put "storageProfile" (obj (put "dataDisks" disks storage)) properties)) m)

abbrev pub in_vm_properties : Bool → Fields → Option Fields → Outcome Fields
in_vm_properties is_managed m none = ok m
in_vm_properties is_managed m (some properties) =
    in_storage is_managed m properties (as_map (get "storageProfile" properties))

unfoldable pub attach_master_disk : Bool → Fields → Outcome Fields
attach_master_disk is_managed m = in_vm_properties is_managed m (as_map (get properties_field m))

abbrev pub is_preserved : Option Bool → Bool
is_preserved none = false
is_preserved (some b) = b

abbrev pub preserves : PreservedPools → String → Bool
preserves none pool = false
preserves (some pools) pool = is_preserved (lookup pool pools)

abbrev pub names_preserved : String → PreservedPools → Bool
names_preserved name none = false
names_preserved name (some pools) = any (λ p. contains name ("variables('" <> p.0) && p.1) pools

abbrev pub is_nil : PreservedPools → Bool
is_nil none = true
is_nil (some pools) = false

-- tags["poolName"], which is nil where the tags are no object.
abbrev pub pool_tag : Option Fields → Json
pool_tag none = null
pool_tag (some tags) = get "poolName" tags

-- A changed resource, and whether it stays.
abbrev pub Verdict : Type 0
Verdict = Fields × Bool

abbrev pub stay : Fields → Outcome Verdict
stay m = ok (m, true)

-- `sprint` is fmt.Sprint of a value that is no text, such as a number.
module _ (sprint : Json → String) where
  abbrev pub pool_name_of : Json → String
  pool_name_of (str s) = s
  pool_name_of tag = sprint tag

  -- A machine of an agent pool stays if the pool is preserved; the masters have no such tag.
  abbrev pub vm_stays : PreservedPools → String → Json → Bool
  vm_stays pools name tag =
      not (is_set tag) || contains name master_prefix || preserves pools (pool_name_of tag)

  abbrev pub extension_stays : PreservedPools → String → Bool
  extension_stays pools name = contains name master_prefix || names_preserved name pools

  abbrev pub upgrade_vm : Bool → PreservedPools → String → Fields → Outcome Verdict
  upgrade_vm is_managed pools name m =
      let attach = attach_master_disk is_managed m in
      let stays : Fields → Outcome Verdict =
        λ m'. ok (m', vm_stays pools name (pool_tag (as_map (get "tags" m')))) in
      if contains name master_prefix then attach >>= stays else stays m

  abbrev pub upgrade_nic : PreservedPools → String → Fields → Outcome Verdict
  upgrade_nic pools name m = remove_nsg_dependency name m >>= λ m'.
      ok (m', contains name master_prefix || not (is_nil pools))

  abbrev pub upgrade_lb : String → Fields → Outcome Verdict
  upgrade_lb name m =
      if contains name "variables('masterInternalLbName')"
      then remove_nsg_dependency name m >>= stay
      else ok (m, true)

  unfoldable pub upgrade_kind : Bool → PreservedPools → String → String → Fields → Outcome Verdict
  unfolding remove_nsg_dependency attach_master_disk
  upgrade_kind is_managed pools kind name m =
      if kind == vmss_resource_type || kind == vnet_resource_type
      then remove_nsg_dependency name m >>= stay
      else if kind == lb_resource_type
      then upgrade_lb name m
      else if kind == nic_resource_type
      then upgrade_nic pools name m
      else if kind == vm_resource_type
      then upgrade_vm is_managed pools name m
      else if kind == vm_extension_type
      then ok (m, extension_stays pools name)
      else ok (m, not (kind == nsg_resource_type))

  abbrev pub upgrade_named :
      Bool → PreservedPools → Option String → Option String → Fields → Outcome Verdict
  upgrade_named is_managed pools (some kind) (some name) m =
      upgrade_kind is_managed pools kind name m
  upgrade_named is_managed pools kind name m = ok (m, true)

  abbrev pub upgrade_map : Bool → PreservedPools → Json → Option Fields → Outcome (Json × Bool)
  upgrade_map is_managed pools resource none = ok (resource, true)
  upgrade_map is_managed pools resource (some m) =
      upgrade_named is_managed pools (as_string (get type_field m)) (as_string (get name_field m)) m
      >>= λ v. ok (obj v.0, v.1)

  -- A resource is appended, and taken off again where it does not stay.
  unfoldable pub normalize_resources_for_k8s_master_upgrade :
      Bool → PreservedPools → List Json → Outcome (List Json)
  unfolding upgrade_kind
  normalize_resources_for_k8s_master_upgrade is_managed pools [] = ok []
  normalize_resources_for_k8s_master_upgrade is_managed pools (r ∷ rs) = do
    here ← upgrade_map is_managed pools r (as_map r)
    rest ← normalize_resources_for_k8s_master_upgrade is_managed pools rs
    ok (if here.1 then here.0 ∷ rest else rest)

  unfoldable pub normalize_resources_for_k8s_agent_upgrade :
      Bool → PreservedPools → List Json → Outcome (List Json)
  unfolding normalize_resources_for_k8s_master_upgrade normalize_for_k8s_vmas_scaling_up
  normalize_resources_for_k8s_agent_upgrade is_managed pools resources =
      normalize_resources_for_k8s_master_upgrade is_managed pools resources
      >>= normalize_for_k8s_vmas_scaling_up
