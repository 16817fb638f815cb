-- ===== src/Cluster.antt =====
-- The parts of api.Properties (pkg/api/types.go) that the upgrade reads, and the names of virtual
-- machines made from them.
use aks_engine.Common.{
  ℕ, ◌+◌, String, Bool, Option, none, some, List, [], ◌∷◌, ltb, if◌then◌else◌, ◌==◌, string_eq,
  decimal, ◌<>◌,
}

-- api.AgentPoolProfile. `count` is the number of nodes; `preserve_nodes_properties` is a pointer.
pub record AgentPoolProfile : Type 0 where
  pub name : String
  pub count : ℕ
  pub is_windows : Bool
  pub windows_name_version : String
  pub is_virtual_machine_scale_sets : Bool
  pub preserve_nodes_properties : Option Bool

pub record MasterProfile : Type 0 where
  pub count : ℕ
  pub is_managed_disks : Bool

-- api.Properties. `cluster_id` is the stored `ClusterID`, which `GetClusterID` computes from a hash
-- only while it is empty.
pub record Properties : Type 0 where
  pub cluster_id : String
  pub orchestrator_version : String
  pub is_kubernetes : Bool
  pub has_windows : Bool
  pub has_hosted_master_profile : Bool
  pub master_profile : Option MasterProfile
  pub agent_pool_profiles : List AgentPoolProfile

unfoldable pub k8s_orchestrator_name : Properties → String
k8s_orchestrator_name p =
    if p.is_kubernetes then (if p.has_hosted_master_profile then "aks" else "k8s") else ""

-- The loop of `GetAgentPoolIndexByName`; `none` is -1.
unfoldable pub index_by_name : String → ℕ → List AgentPoolProfile → Option ℕ
index_by_name name i [] = none
index_by_name name i (profile ∷ profiles) =
    let rest = index_by_name name (i + 1) profiles in if profile.name == name then some i else rest

unfoldable pub get_agent_pool_index_by_name : Properties → String → Option ℕ
unfolding index_by_name
get_agent_pool_index_by_name p name = index_by_name name 0 p.agent_pool_profiles

-- nameSuffix[:4]; `none` is the panic on a shorter text. The identifier is in ASCII.
abbrev pub first_four : String → Option String
first_four (String.◌∷◌ a (String.◌∷◌ b (String.◌∷◌ c (String.◌∷◌ d s)))) =
    some (String.◌∷◌ a (String.◌∷◌ b (String.◌∷◌ c (String.◌∷◌ d String.[]))))
first_four _ = none

-- fmt.Sprintf("%02d", index)
abbrev pub two_digits : ℕ → String
two_digits i = if ltb i 10 then "0" <> decimal i else decimal i

windows_prefix : String → String → Option String → Option String
windows_prefix orchestrator index none = none
windows_prefix orchestrator index (some start) = some (start <> orchestrator <> index)

-- `GetAgentVMPrefix`; `none` is a panic, and "" stands for a pool that the cluster does not have.
unfoldable pub get_agent_vm_prefix : Properties → AgentPoolProfile → Option ℕ → Option String
unfolding windows_prefix
get_agent_vm_prefix p a none = some ""
get_agent_vm_prefix p a (some index) =
    if a.is_windows
    then (if a.windows_name_version == "v2"
        then some (k8s_orchestrator_name p <> a.name)
        else windows_prefix (k8s_orchestrator_name p) (two_digits index) (first_four p.cluster_id))
    else some (
        k8s_orchestrator_name p
        <> "-"
        <> a.name
        <> "-"
        <> p.cluster_id
        <> "-"
        <> (if a.is_virtual_machine_scale_sets then "vmss" else ""))
