-- ===== src/Upgrade/Discovery.antt =====
-- pkg/operations/kubernetesupgrade/upgradecluster.go: which machines are to be upgraded.
pub mod Membership
pub mod Safe
use Prim.Native.Char.{Char, code}
use aks_engine.Common.{
  ℕ, String, Bool, true, false, not, ◌&&◌, ◌||◌, Option, none, some, List, [], ◌∷◌, ◌++◌, any,
  nat_beq, if◌then◌else◌, ◌==◌, string_eq, is_empty, contains, trim_prefix_v, ◌<>◌, Result, ok, err,
}
use aks_engine.Versions.Semver.{Semver}
use aks_engine.Versions.Select.{kubernetes}
use aks_engine.Orchestrators.{get_orchestrator_version_profile}
use aks_engine.OrchestratorData.{OrchestratorError, OrchestratorVersionProfile}
use aks_engine.Cloud.{
  Env, Page, VirtualMachine, ScaleSet, ScaleSetVm, get_node, list_vms, list_scale_sets,
  list_scale_set_vms, fault_domain_count,
}
use aks_engine.Cloud.Actions.{
  Failure, api, cannot_upgrade, no_upgrade_info, panic, Action, pure, fail, request,
  when◌take◌otherwise◌, recover, ◌>>=◌, ◌>>◌,
}
use aks_engine.Names.{NameError, panicked, vmss_name_parts}
use aks_engine.Cluster.{Properties, AgentPoolProfile, first_four}
use aks_engine.Upgrade.Lower.{to_lower}
use aks_engine.Upgrade.ScaleSets.{AgentPoolScaleSet, AgentPoolScaleSetVm}
use aks_engine.Upgrade.Discovery.Membership.{PoolsToUpgrade, AgentPools, add_vm_to_agent_pool}

-- The fields of `UpgradeCluster` that are read.
pub record Options : Type 0 where
  pub force : Bool
  pub name_suffix : String
  pub agent_pools_to_upgrade : PoolsToUpgrade
  pub is_vmss_to_be_upgraded : Option (String → Bool)

-- The fields of `ClusterTopology` that are written, and the local `availabilitySetIDs`.
pub record Topology : Type 0 where
  pub profiles : List AgentPoolProfile
  pub scale_sets : List AgentPoolScaleSet
  pub agent_pools : AgentPools
  pub master_vms : List VirtualMachine
  pub upgraded_master_vms : List VirtualMachine
  pub availability_set_ids : List String

-- The second of exactly two parts at `:`.
no_colon : String → Bool
no_colon String.[] = true
no_colon (String.◌∷◌ c s) = not (nat_beq (code c) b':') && no_colon s

unfoldable pub second_part : String → Option String
unfolding no_colon
second_part String.[] = none
second_part (String.◌∷◌ c s) =
    let later = second_part s in
    if nat_beq (code c) b':' then (if no_colon s then some s else none) else later

abbrev pub tag_version : Option String → Option String
tag_version none = none
tag_version (some tag) = second_part tag

abbrev unknown : Bool → String → String
unknown force version = if force && is_empty version then "Unknown" else version

module _ (env : Env) (has_client : Bool) where
  abbrev pub version_from_api : String → Action String
  version_from_api name =
      when has_client
      take recover (request (get_node name) (λ h. env.node_of h name))
          (λ node. pure (trim_prefix_v node.kubelet_version)) (λ _. pure "")
      otherwise pure ""

  unfoldable pub get_node_version : String → Option String → Bool → Action String
  get_node_version name tag from_tags = elim (if from_tags then tag_version tag else none) [
    | some version ↦ pure version
    | none ↦ version_from_api name
  ]

module _ (semver : Semver) where
  abbrev offered :
      String → String → Result OrchestratorError OrchestratorVersionProfile → Action (Unit {0})
  offered current target (err e) = fail (no_upgrade_info e)
  offered current target (ok profile) =
      when any (λ up. up.orchestrator_version == target) profile.upgrades
      take pure tt
      otherwise fail (cannot_upgrade current target)

  unfoldable pub upgradable : Properties → String → Action (Unit {0})
  upgradable p current = offered current p.orchestrator_version (
      get_orchestrator_version_profile semver
        (record { orchestrator_type = kubernetes; orchestrator_version = current }) p.has_windows)

  -- A machine of the masters is told by its name. Of the error for an agent only a panic counts.
  abbrev with_pools : Topology → Result NameError AgentPools → Action Topology
  with_pools t (ok pools) = pure (record t { agent_pools = pools })
  with_pools t (err panicked) = fail panic
  with_pools t (err _) = pure t

  abbrev is_master : VirtualMachine → Bool
  is_master vm = contains vm.name "k8s-master-"

  unfoldable pub add_vm_to_upgrade_sets : Options → VirtualMachine → Topology → Action Topology
  add_vm_to_upgrade_sets o vm t =
      when is_master vm
      take pure (record t { master_vms = t.master_vms ++ vm ∷ [] })
      otherwise with_pools t
          (add_vm_to_agent_pool o.agent_pools_to_upgrade o.name_suffix vm true t.agent_pools)

  unfoldable pub add_vm_to_finished_sets : Options → VirtualMachine → Topology → Action Topology
  add_vm_to_finished_sets o vm t =
      when is_master vm
      take pure (record t { upgraded_master_vms = t.upgraded_master_vms ++ vm ∷ [] })
      otherwise with_pools t
          (add_vm_to_agent_pool o.agent_pools_to_upgrade o.name_suffix vm false t.agent_pools)

  -- By the version of a machine: what is done with it.
  unfoldable pub sort_vm :
      Options → Properties → VirtualMachine → String → Topology → Action Topology
  sort_vm o p vm current t =
      when o.force
      take add_vm_to_upgrade_sets o vm t
      otherwise when is_empty current
      take pure t
      otherwise when current == p.orchestrator_version
      take add_vm_to_finished_sets o vm t
      otherwise (do
        when p.has_hosted_master_profile take pure tt otherwise upgradable p current
        add_vm_to_upgrade_sets o vm t)

  -- nameSuffix[:4] + "k8s" is only made for a name that does not contain the suffix.
  abbrev of_windows : String → Option String → Action Bool
  of_windows name none = fail panic
  of_windows name (some start) = pure (contains name (start <> "k8s"))

  unfoldable pub belongs : Options → String → Action Bool
  belongs o name =
      when contains name o.name_suffix
      take pure true
      otherwise of_windows name (first_four o.name_suffix)

  abbrev noted : Option String → Topology → Topology
  noted none t = t
  noted (some id) t = record t { availability_set_ids = t.availability_set_ids ++ id ∷ [] }

  module _ (env : Env) (has_client : Bool) (o : Options) (p : Properties) where
    unfoldable pub visit_vm : VirtualMachine → Topology → Action Topology
    visit_vm vm t = do
      mine ← belongs o vm.name
      when mine
          take (do
            current ← get_node_version env has_client (to_lower vm.name) vm.orchestrator_tag true
            sort_vm o p vm current (noted vm.availability_set_id t))
          otherwise pure t

    unfoldable pub visit_vms : List VirtualMachine → Topology → Action Topology
    visit_vms [] t = pure t
    visit_vms (vm ∷ vms) t = visit_vm vm t >>= visit_vms vms

    unfoldable pub visit_vm_pages : List (Page VirtualMachine) → Topology → Action Topology
    visit_vm_pages [] t = pure t
    visit_vm_pages (err e ∷ pages) t = fail (api e)
    visit_vm_pages (ok vms ∷ pages) t = visit_vms vms t >>= visit_vm_pages pages

    -- The machines of one page of a scale set that are to be upgraded.
    unfoldable pub visit_scale_set_vms : List ScaleSetVm → Action (List AgentPoolScaleSetVm)
    visit_scale_set_vms [] = pure []
    visit_scale_set_vms (vm ∷ vms) = do
      found ←
          get_node_version env has_client (to_lower vm.computer_name) vm.orchestrator_tag
            vm.latest_model_applied
      rest ← visit_scale_set_vms vms
      let current = unknown o.force found
      when not (is_empty current) && (o.force || not (current == p.orchestrator_version))
          take pure (record { name = vm.computer_name; instance_id = vm.instance_id } ∷ rest)
          otherwise pure rest

    -- The first profile of the pool's name gets the capacity as its count.
    unfoldable pub with_capacity : String → ℕ → List AgentPoolProfile → List AgentPoolProfile
    with_capacity pool capacity [] = []
    with_capacity pool capacity (profile ∷ profiles) =
        let rest = with_capacity pool capacity profiles in
        if pool == profile.name
        then record profile { count = capacity } ∷ profiles
        else profile ∷ rest

    abbrev pool_of : Result NameError (String × String) → String
    pool_of (ok (pool, id)) = pool
    pool_of (err e) = ""

    -- Each page of a scale set's machines adds an entry for the scale set.
    unfoldable pub visit_pages : ScaleSet → List (Page ScaleSetVm) → Topology → Action Topology
    visit_pages vmss [] t = pure t
    visit_pages vmss (err e ∷ pages) t = fail (api e)
    visit_pages vmss (ok vms ∷ pages) t = do
      listed ← visit_scale_set_vms vms
      let entry : AgentPoolScaleSet = record {
        name = vmss.name;
        capacity = vmss.capacity;
        is_windows = vmss.is_windows;
        vms_to_upgrade = listed;
      }
      visit_pages vmss pages (record t {
        profiles = with_capacity (pool_of (vmss_name_parts vmss.name)) vmss.capacity t.profiles;
        scale_sets = t.scale_sets ++ entry ∷ [];
      })

    abbrev wanted : Option (String → Bool) → String → Bool
    wanted none name = true
    wanted (some f) name = f name

    unfoldable pub visit_scale_sets : List ScaleSet → Topology → Action Topology
    visit_scale_sets [] t = pure t
    visit_scale_sets (vmss ∷ rest) t =
        (when wanted o.is_vmss_to_be_upgraded vmss.name
          take (do
            pages ←
                request (list_scale_set_vms vmss.name) (λ h. ok (env.scale_set_pages h vmss.name))
            visit_pages vmss pages t)
          otherwise pure t)
        >>= visit_scale_sets rest

    unfoldable pub visit_scale_set_pages : List (Page ScaleSet) → Topology → Action Topology
    visit_scale_set_pages [] t = pure t
    visit_scale_set_pages (err e ∷ pages) t = fail (api e)
    visit_scale_set_pages (ok sets ∷ pages) t =
        visit_scale_sets sets t >>= visit_scale_set_pages pages

    -- The count of fault domains that the last call returns is only stored.
    unfoldable pub get_cluster_node_status : Topology → Action Topology
    get_cluster_node_status t = do
      sets ← request list_scale_sets (λ h. ok (env.all_scale_sets h))
      t₁ ← visit_scale_set_pages sets t
      vms ← request list_vms (λ h. ok (env.all_vms h))
      t₂ ← visit_vm_pages vms t₁
      request fault_domain_count env.answer
      pure t₂
