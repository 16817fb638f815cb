-- ===== src/Cloud.antt =====
-- What the upgrade calls of Azure and of a cluster's API server: the methods that it uses of the
-- interfaces AKSEngineClient and KubernetesClient (pkg/armhelpers/interfaces.go), with their data.
-- An environment answers each call, and the answer may depend on all calls made before it.
pub mod Actions
pub mod Counts
pub mod Effects
pub mod Rolling
use aks_engine.Common.{ℕ, ◌+◌, String, Bool, Option, List, [], ◌∷◌, Result, ok, err, map}

-- What the program tells apart in the error of a call.
pub data ApiError : Type 0 where
  not_found : ApiError
  too_many_requests : ApiError
  modified : ApiError  -- the message contains `kubernetesOptimisticLockErrorMsg`
  other : String → ApiError

-- compute.OperatingSystemTypes
pub data OsType : Type 0 where
  linux windows : OsType

-- The fields of compute.VirtualMachine that are read. `nic_ids` holds the `ID` of each of the
-- network interfaces.
pub record VirtualMachine : Type 0 where
  pub name : String
  pub os_type : OsType
  pub vhd_uri : Option String
  pub has_managed_disk : Bool
  pub os_disk_name : Option String
  pub nic_ids : List (Option String)
  pub principal_id : Option String
  pub provisioning_state : Option String
  pub pool_name_tag : Option String
  pub orchestrator_tag : Option String
  pub availability_set_id : Option String

-- The fields of v1.Taint and v1.Node that are read or written.
pub record Taint : Type 0 where
  pub key : String
  pub value : String

pub record NodeCondition : Type 0 where
  pub is_ready_type : Bool  -- c.Type == v1.NodeReady
  pub is_true : Bool  -- c.Status == v1.ConditionTrue

pub record Node : Type 0 where
  pub name : String
  pub unschedulable : Bool
  pub annotations : Option (List (String × String))
  pub labels : Option (List (String × String))
  pub taints : Option (List Taint)
  pub conditions : List NodeCondition
  pub kubelet_version : String  -- node.Status.NodeInfo.KubeletVersion

-- metav1.OwnerReference, with `is_controller` for `ref.Controller != nil && *ref.Controller`.
pub record OwnerReference : Type 0 where
  pub is_controller : Bool
  pub kind : String

pub record Pod : Type 0 where
  pub namespace : String
  pub name : String
  pub annotations : List (String × String)
  pub owner_references : List OwnerReference

-- An instance of a scale set: its computer name, its identifier, its tag and whether it has the
-- latest model.
pub record ScaleSetVm : Type 0 where
  pub computer_name : String
  pub instance_id : String
  pub orchestrator_tag : Option String
  pub latest_model_applied : Bool

-- compute.VirtualMachineScaleSet: its name, the capacity in its Sku, and whether it has a
-- configuration for Windows.
pub record ScaleSet : Type 0 where
  pub name : String
  pub capacity : ℕ
  pub is_windows : Bool

pub data Call : Type 0 where
  get_vm delete_vm delete_nic get_storage delete_disk : String → Call
  delete_blob : String → String → String → Call
  list_roles delete_role : String → Call
  deploy_master : ℕ → ℕ → Call  -- masterOffset, masterCount
  deploy_agent : String → ℕ → ℕ → Call  -- the pool, its Count parameter and its Offset variable
  deploy_scale_sets : Call
  kube_client : Call
  get_node delete_node : String → Call
  update_node : Node → Call
  list_pods support_eviction : String → Call
  delete_pod : Pod → Call
  evict_pods : List Pod → String → Call  -- pods, policyGroupVersion
  wait_for_delete : List Pod → Bool → Call  -- pods, usingEviction
  set_capacity : String → ℕ → Call
  list_scale_set_vms : String → Call
  list_scale_sets list_vms fault_domain_count get_autoscaler : Call
  update_autoscaler : ℕ → Call
  delete_scale_set_vm : String → String → Call

-- The calls made so far, the newest first.
abbrev pub History : Type 0
History = List Call

abbrev pub Reply : Type 0 → Type 0
Reply A = Result ApiError A

-- One page of a listing: the error that came with it, if any, or its values.
abbrev pub Page : Type 0 → Type 0
Page A = Result ApiError (List A)

pub record Env : Type 0 where
  pub vm_of : History → String → Reply VirtualMachine
  pub answer : History → Reply Unit  -- calls of which only the error is used
  pub role_pages : History → String → List (Page String)
  pub node_of : History → String → Reply Node
  pub updated_node : History → Node → Reply Node
  pub pods_on : History → String → Reply (List Pod)
  pub eviction_version : History → Reply String
  pub eviction_result : History → List Pod → Reply Unit
  pub all_scale_sets : History → List (Page ScaleSet)
  pub all_vms : History → List (Page VirtualMachine)
  pub autoscaler_replicas : History → Reply ℕ  -- *deployment.Spec.Replicas
  pub scale_set_pages : History → String → List (Page ScaleSetVm)
  pub template_result : History → Reply Unit  -- generateUpgradeTemplate and the transformations of it
  pub rounds : History → ℕ  -- how many times a poll runs before its timeout fires
  -- Whether the generated maps have a pool's Count parameter, and the variables.
  pub pool_parameters : String → Bool
  pub blob_parts : String → Option (String × String × String)  -- utils.SplitBlobURI, over net/url
