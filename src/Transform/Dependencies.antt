-- ===== src/Transform/Dependencies.antt =====
-- pkg/engine/transform/transform.go: the names of fields and of resource types, and the loop over the
-- dependencies of a resource that two of the transformations share.
use aks_engine.Common.{String, Bool, Option, none, some, List, [], ◌∷◌, if◌then◌else◌, ◌>>=◌, ok}
use aks_engine.Transform.Json.{
  Json, arr, Fields, Outcome, items, get, put, remove, as_list, as_string, or_panic,
}

abbrev pub name_field : String
name_field = "name"

abbrev pub type_field : String
type_field = "type"

abbrev pub properties_field : String
properties_field = "properties"

abbrev pub depends_on_field : String
depends_on_field = "dependsOn"

abbrev pub nsg_resource_type : String
nsg_resource_type = "Microsoft.Network/networkSecurityGroups"

abbrev pub rt_resource_type : String
rt_resource_type = "Microsoft.Network/routeTables"

abbrev pub vnet_resource_type : String
vnet_resource_type = "Microsoft.Network/virtualNetworks"

abbrev pub vmas_resource_type : String
vmas_resource_type = "Microsoft.Compute/availabilitySets"

abbrev pub lb_resource_type : String
lb_resource_type = "Microsoft.Network/loadBalancers"

abbrev pub vm_resource_type : String
vm_resource_type = "Microsoft.Compute/virtualMachines"

abbrev pub vm_extension_type : String
vm_extension_type = "Microsoft.Compute/virtualMachines/extensions"

abbrev pub nic_resource_type : String
nic_resource_type = "Microsoft.Network/networkInterfaces"

abbrev pub vmss_resource_type : String
vmss_resource_type = "Microsoft.Compute/virtualMachineScaleSets"

abbrev pub master_prefix : String
master_prefix = "variables('masterVMNamePrefix')"

-- The loop from the last dependency to the first: an element that is not a text is a panic.
unfoldable pub without : (String → Bool) → List Json → Outcome (List Json)
without drop [] = ok []
without drop (d ∷ ds) = do
  rest ← without drop ds
  s ← or_panic (as_string d)
  ok (if drop s then rest else d ∷ rest)

abbrev pub with_dependencies : Fields → List Json → Fields
with_dependencies m [] = remove depends_on_field m
with_dependencies m (d ∷ ds) = put depends_on_field (arr (items (d ∷ ds))) m

abbrev pub clean_list : (String → Bool) → Fields → Option (List Json) → Outcome Fields
clean_list drop m none = ok m
clean_list drop m (some ds) = without drop ds >>= λ rest. ok (with_dependencies m rest)

-- Dependencies of any other type than []interface{} are left alone.
unfoldable pub clean_dependencies : (String → Bool) → Fields → Outcome Fields
clean_dependencies drop m = clean_list drop m (as_list (get depends_on_field m))
