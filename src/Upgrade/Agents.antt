-- ===== src/Upgrade/Agents.antt =====
-- pkg/operations/kubernetesupgrade/upgrader.go: `upgradeAgentPools`.
pub mod Counts
pub mod Rolling
pub mod Pool
pub mod Pools
use aks_engine.Common.{
  ℕ, zero, suc, ◌+◌, ◌-◌, String, Bool, true, false, ◌||◌, Option, none, some, List, [], ◌∷◌, ◌++◌,
  ltb, length, if◌then◌else◌, ◌==◌, nat_eq, string_eq, insert, find?, Result, ok, err,
}
use aks_engine.Cloud.{Env, VirtualMachine}
use aks_engine.Cloud.Actions.{
  Failure, no_vm_name, Action, pure, fail, when◌take◌otherwise◌, ignore, ◌>>=◌, ◌>>◌,
}
use aks_engine.Names.{NameError, get_k8s_vm_name}
use aks_engine.Cluster.{AgentPoolProfile, Properties}
use aks_engine.Upgrade.Lower.{to_lower}
use aks_engine.Upgrade.Nodes.{UpgradeNode, agent_node, get_kubernetes_client}
use aks_engine.Upgrade.Copy.{copy_custom_properties_to_new_node}
use aks_engine.Upgrade.Indices.{get_available_index}
use aks_engine.Upgrade.Masters.{index_of, prepare_template}

pub data VmStatus : Type 0 where
  upgraded not_upgraded ignored : VmStatus

pub record VmInfo : Type 0 where
  pub name : String
  pub status : VmStatus

-- `map[int]*vmInfo`, by the machines' indices.
abbrev pub VmMap : Type 0
VmMap = List (ℕ × VmInfo)

-- AgentPoolTopology of upgradecluster.go
pub record AgentPoolTopology : Type 0 where
  pub identifier : String
  pub name : String
  pub agent_vms : List VirtualMachine
  pub upgraded_agent_vms : List VirtualMachine

-- The cases of the `switch` on a provisioning state.
pub data Provisioning : Type 0 where
  good failed bad : Provisioning

abbrev state_text : Option String → String
state_text none = ""
state_text (some s) = s

unfoldable pub provisioning : VirtualMachine → Provisioning
provisioning vm =
    let state = state_text vm.provisioning_state in
    if state == "Creating" || state == "Updating" || state == "Succeeded"
    then good
    else if state == "Failed"
    then failed
    else bad

unfoldable pub add_not_upgraded : List VirtualMachine → VmMap → VmMap
add_not_upgraded [] vms = vms
add_not_upgraded (vm ∷ rest) vms =
    add_not_upgraded rest
      (insert (index_of vm) (record { name = vm.name; status = not_upgraded }) vms)

abbrev name_or_fail : Result NameError String → Action String
name_or_fail (ok name) = pure name
name_or_fail (err e) = fail no_vm_name

abbrev is_old : VmStatus → Bool
is_old not_upgraded = true
is_old _ = false

abbrev pub preserves : AgentPoolProfile → Bool
preserves profile = elim profile.preserve_nodes_properties [ none ↦ true | some b ↦ b ]

-- The three branches of the `switch`.
abbrev by_state : {A : Type 0} → Provisioning → A → A → A → A
by_state good a b c = a
by_state failed a b c = b
by_state bad a b c = c

module _ (node : UpgradeNode) (vm_name : ℕ → Result NameError String) where
  -- The loop over the machines that have the expected version already: one in a failed state is
  -- deleted.
  unfoldable pub check_upgraded : List VirtualMachine → VmMap → ℕ → Action (VmMap × ℕ)
  check_upgraded [] vms count = pure (vms, count)
  check_upgraded (vm ∷ rest) vms count =
      let go = check_upgraded rest in
      by_state (provisioning vm)
        (go (insert (index_of vm) (record { name = vm.name; status = upgraded }) vms) (count + 1))
        (node.delete vm.name false >>= λ _. go vms count)
        (go (insert (index_of vm) (record { name = vm.name; status = ignored }) vms) count)

  -- The loop that creates machines while there are fewer than `agentCount`, by the rounds left: each
  -- raises `upgradedCount` by one.
  unfoldable pub create_agents : ℕ → VmMap → List String → Action (VmMap × List String)
  create_agents zero vms created = pure (vms, created)
  create_agents (suc rounds) vms created = do
    let index = get_available_index vms
    name ← name_or_fail (vm_name index)
    node.create index
    node.validate name
    create_agents rounds (insert index (record { name = name; status = upgraded }) vms)
        (created ++ name ∷ [])

  module _ (preserve : Bool) (copy : String → String → Action (Unit {0})) (to_upgrade : ℕ) where
    -- Properties go to the oldest of the machines made so far; a failure is only logged.
    abbrev copy_properties : String → List String → Action (List String)
    copy_properties old [] = pure []
    copy_properties old (new ∷ created) =
        when preserve
        take (ignore (copy (to_lower old) new) >>= λ _. pure created)
        otherwise pure (new ∷ created)

    -- The last machine is not made again: the extra one stands for it.
    abbrev create_again : ℕ → String → ℕ → List String → Action (List String)
    create_again index name done created =
        when done == to_upgrade - 1
        take pure created
        otherwise (do node.create index; node.validate name; pure (created ++ name ∷ []))

    -- The loop over the map, whose order Go does not fix, with `upgradedCount` and the list of new
    -- machines.
    unfoldable pub replace_agents : VmMap → ℕ → List String → Action (Unit {0})
    replace_agents [] done created = pure tt
    replace_agents ((index, vm) ∷ rest) done created =
        let go = replace_agents rest in
        when is_old vm.status
        take (do
          created' ← copy_properties vm.name created
          node.delete vm.name true
          name ← name_or_fail (vm_name index)
          created'' ← create_again index name done created'
          go (done + 1) created'')
        otherwise go done created

    -- One pool that has an agent count, behind the template. With machines to upgrade, one extra
    -- machine takes the load of those that are being replaced.
    unfoldable pub upgrade_pool : ℕ → AgentPoolTopology → Action (Unit {0}) → Action (Unit {0})
    upgrade_pool agent_count pool get_client = do
      checked ← check_upgraded pool.upgraded_agent_vms [] 0
      let vms = add_not_upgraded pool.agent_vms checked.0
      let wanted = if to_upgrade == 0 then agent_count else agent_count + 1
      get_client
      made ← create_agents (wanted - (checked.1 + to_upgrade)) vms []
      when to_upgrade == 0 take pure tt otherwise replace_agents made.0 0 made.1

module _ (env : Env) (properties : Properties) where
  -- `none` is a pool that no profile names; its count is 0.
  abbrev profile_of : AgentPoolTopology → Option AgentPoolProfile
  profile_of pool = find? (λ app. app.name == pool.name) properties.agent_pool_profiles

  unfoldable pub upgrade_profile : AgentPoolTopology → AgentPoolProfile → Action (Unit {0})
  upgrade_profile pool profile =
      upgrade_pool (agent_node env properties pool.name) (get_k8s_vm_name properties profile)
        (preserves profile) (copy_custom_properties_to_new_node env) (length pool.agent_vms)
        profile.count pool (get_kubernetes_client env properties)

  -- The body of the loop behind the template, with the rest of the loop.
  abbrev with_profile :
      AgentPoolTopology → Action (Unit {0}) → Option AgentPoolProfile → Action (Unit {0})
  with_profile pool others none = pure tt
  with_profile pool others (some profile) = when profile.count == 0 take pure tt otherwise (do
    upgrade_profile pool profile
    when length pool.agent_vms == 0 take pure tt otherwise others)

  -- The loop over the pools, whose order Go does not fix. The `return nil` for an empty pool, and
  -- for a pool with nothing to upgrade, ends the whole loop.
  unfoldable pub upgrade_agent_pools : List AgentPoolTopology → Action (Unit {0})
  upgrade_agent_pools [] = pure tt
  upgrade_agent_pools (pool ∷ pools) = do
    prepare_template env
    with_profile pool (upgrade_agent_pools pools) (profile_of pool)
