-- ===== src/Transform/Masters.antt =====
-- pkg/engine/transform/transform.go: `NormalizeMasterResourcesForScaling`. A machine that stays is
-- deployed again as it is, without its size, its custom data, its data disks and its image.
pub mod Scaled
use aks_engine.Common.{
  ℕ, suc, String, Bool, false, not, ◌&&◌, Option, none, some, List, [], ◌∷◌, if◌then◌else◌, ◌==◌,
  string_eq, contains,
}
use aks_engine.Transform.Json.{
  Json, obj, Fields, Outcome, get, put, remove, as_map, as_string, or_panic, is_set,
}
use aks_engine.Transform.Dependencies.{
  name_field, type_field, properties_field, vm_resource_type, vm_extension_type, master_prefix,
}
use aks_engine.Transform.Removal.{remove_indexes_from_array}

-- if m[k] != nil { delete(m, k) }
abbrev pub remove_set : String → Fields → Fields
remove_set k m = if is_set (get k m) then remove k m else m

-- The helpers `remove…` return the changed properties; `none` is a profile that is no object.
abbrev without_custom_data : Fields → Fields
without_custom_data os_profile =
    if is_set (get "customData" os_profile) && not (is_set (get "windowsConfiguration" os_profile))
    then remove "customData" os_profile
    else os_profile

abbrev pub in_profile : String → (Fields → Fields) → Fields → Option Fields → Option Fields
in_profile profile change properties none = none
in_profile profile change properties (some m) = some (put profile (obj (change m)) properties)

abbrev pub remove_custom_data : Fields → Option Fields
remove_custom_data properties =
    in_profile "osProfile" without_custom_data properties (as_map (get "osProfile" properties))

abbrev pub remove_data_disks : Fields → Option Fields
remove_data_disks properties =
    in_profile "storageProfile" (remove_set "dataDisks") properties
      (as_map (get "storageProfile" properties))

abbrev pub remove_image_reference : Fields → Option Fields
remove_image_reference properties =
    in_profile "storageProfile" (remove_set "imageReference") properties
      (as_map (get "storageProfile" properties))

abbrev or_same : Fields → Option Fields → Fields
or_same before none = before
or_same before (some after) = after

abbrev after_data_disks : Fields → Option Fields → Fields
after_data_disks before none = before
after_data_disks before (some m) = or_same m (remove_image_reference m)

abbrev after_custom_data : Fields → Option Fields → Fields
after_custom_data before none = before
after_custom_data before (some m) = after_data_disks m (remove_data_disks m)

-- One helper after the other, up to the first that fails.
unfoldable pub remove_machine_data : Fields → Fields
remove_machine_data properties = after_custom_data properties (remove_custom_data properties)

abbrev in_hardware : Fields → Fields → Option Fields → Fields
in_hardware m properties none = m
in_hardware m properties (some hardware) =
    let sized = put "hardwareProfile" (obj (remove_set "vmSize" hardware)) properties in
    put properties_field (obj (remove_machine_data sized)) m

abbrev in_properties : Fields → Option Fields → Fields
in_properties m none = m
in_properties m (some properties) =
    in_hardware m properties (as_map (get "hardwareProfile" properties))

unfoldable pub scale_master_vm : Fields → Option String → Fields
unfolding remove_machine_data
scale_master_vm m none = m
scale_master_vm m (some name) =
    if contains name master_prefix then in_properties m (as_map (get properties_field m)) else m

-- The extensions of the masters are removed.
abbrev pub is_master_extension : Option String → Option String → Bool
is_master_extension (some kind) (some name) =
    contains name master_prefix && kind == vm_extension_type
is_master_extension kind name = false

abbrev pub is_vm : Option String → Bool
is_vm none = false
is_vm (some kind) = kind == vm_resource_type

abbrev pub scale_master : Json → Option Fields → Json
scale_master resource none = resource
scale_master resource (some m) =
    if is_vm (as_string (get type_field m))
    then obj (scale_master_vm m (as_string (get name_field m)))
    else resource

abbrev pub is_removed_master : Option Fields → Bool
is_removed_master none = false
is_removed_master (some m) =
    not (is_vm (as_string (get type_field m)))
    && is_master_extension (as_string (get type_field m)) (as_string (get name_field m))

-- The changed resources, with the indexes to remove.
unfoldable pub scan_masters : ℕ → List Json → List Json × List ℕ
unfolding scale_master_vm
scan_masters index [] = ([], [])
scan_masters index (resource ∷ resources) =
    let (later, indexes) = scan_masters (suc index) resources in
    (
      scale_master resource (as_map resource) ∷ later,
      if is_removed_master (as_map resource) then index ∷ indexes else indexes,
    )

unfoldable pub normalize_master_resources_for_scaling : List Json → Outcome (List Json)
unfolding scan_masters remove_indexes_from_array
normalize_master_resources_for_scaling resources =
    let (changed, indexes) = scan_masters 0 resources in
    or_panic (remove_indexes_from_array changed indexes)
