-- ===== src/Upgrade/Nodes.antt =====
-- pkg/operations/kubernetesupgrade/upgradeagentnode.go and upgrademasternode.go: the implementations
-- of `UpgradeNode`. A poll runs as often as the environment says before its timeout fires.
pub mod Effects
use Prim.Native.Nat.{◌^◌}
use aks_engine.Common.{
  ℕ, zero, suc, ◌+◌, String, Bool, true, false, Option, none, some, List, [], ◌∷◌, if◌then◌else◌,
  is_empty, Result, ok, err, find?,
}
use aks_engine.Cloud.{
  Call, deploy_master, deploy_agent, kube_client, get_node, delete_node, Env, Node,
}
use aks_engine.Cloud.Actions.{
  Failure, empty_vm_name, node_not_ready, panic, Action, pure, fail, request, when◌take◌otherwise◌,
  with_history, recover, ignore, ◌>>=◌, ◌>>◌,
}
use aks_engine.Cluster.{Properties, MasterProfile}
use aks_engine.Operations.Drain.{safely_drain_node_with_client}
use aks_engine.Operations.DeleteVm.{clean_delete_virtual_machine}
use aks_engine.Upgrade.Lower.{to_lower}

-- `isNodeReady`: the first condition of type Ready decides.
unfoldable pub is_node_ready : Node → Bool
is_node_ready node = elim (find? (λ c. c.is_ready_type) node.conditions) [
  | none ↦ false
  | some c ↦ c.is_true
]

-- The interface `UpgradeNode` of upgradeworkflow.go. The pool's name is bound beforehand.
pub record UpgradeNode : Type 0 where
  pub delete : String → Bool → Action (Unit {0})
  pub create : ℕ → Action (Unit {0})
  pub validate : String → Action (Unit {0})

abbrev profile_or_panic : Option MasterProfile → Action (Unit {0})
profile_or_panic none = fail panic
profile_or_panic (some m) = pure tt

module _ (env : Env) where
  -- Whether the node became ready within so many rounds. An error of GetNode counts as not ready.
  unfoldable pub poll_ready : ℕ → String → Action Bool
  poll_ready zero node_name = pure false
  poll_ready (suc rounds) node_name =
      let again = poll_ready rounds node_name in
      recover (request (get_node node_name) (λ h. env.node_of h node_name))
        (λ node. when is_node_ready node take pure true otherwise again) (λ _. again)

  unfoldable pub poll : String → Action Bool
  poll node_name = with_history (λ h. poll_ready (env.rounds h) node_name)

  -- The address of the API server is read from the hosted or otherwise from the master profile; a
  -- cluster with neither is a nil dereference.
  unfoldable pub server_address : Properties → Action (Unit {0})
  server_address p =
      when p.has_hosted_master_profile take pure tt otherwise profile_or_panic p.master_profile

  unfoldable pub get_client : Action (Unit {0})
  get_client = request kube_client env.answer

  -- `getKubernetesClient` of upgrader.go
  unfoldable pub get_kubernetes_client : Properties → Action (Unit {0})
  unfolding server_address get_client
  get_kubernetes_client p = server_address p >> get_client

  unfoldable pub agent_delete_node : Properties → String → Bool → Action (Unit {0})
  agent_delete_node p vm_name drain = do
    server_address p
    when is_empty vm_name take fail empty_vm_name otherwise get_client
    when drain take ignore (safely_drain_node_with_client env (to_lower vm_name)) otherwise pure tt
    clean_delete_virtual_machine env vm_name
    ignore (request (delete_node (to_lower vm_name)) env.answer)

  -- The pool's Count parameter and Offset variable single out one machine of the template. Without
  -- them the type assertions panic.
  unfoldable pub agent_create_node : String → ℕ → Action (Unit {0})
  agent_create_node pool_name agent_no =
      when env.pool_parameters pool_name
      take request (deploy_agent pool_name (agent_no + 1) agent_no) env.answer
      otherwise fail panic

  -- A node that is not ready in time is deleted, and the result is an error in any case.
  unfoldable pub agent_validate : Properties → String → Action (Unit {0})
  agent_validate p vm_name = when is_empty vm_name take pure tt otherwise (do
    server_address p
    get_client
    ready ← poll (to_lower vm_name)
    when ready
        take pure tt
        otherwise ignore (agent_delete_node p vm_name false) >>= λ _. fail node_not_ready)

  unfoldable pub master_delete_node : String → Bool → Action (Unit {0})
  master_delete_node vm_name drain = clean_delete_virtual_machine env vm_name

  unfoldable pub master_create_node : ℕ → Action (Unit {0})
  master_create_node master_no = request (deploy_master master_no (master_no + 1)) env.answer

  unfoldable pub master_validate : Option MasterProfile → String → Action (Unit {0})
  master_validate none vm_name = pure tt
  master_validate (some profile) vm_name = when is_empty vm_name take pure tt otherwise (do
    get_client
    ready ← poll (to_lower vm_name)
    when ready take pure tt otherwise fail node_not_ready)

  abbrev pub agent_node : Properties → String → UpgradeNode
  agent_node p pool_name = record {
    delete = agent_delete_node p;
    create = agent_create_node pool_name;
    validate = agent_validate p;
  }

  abbrev pub master_node : Option MasterProfile → UpgradeNode
  master_node profile = record {
    delete = master_delete_node;
    create = master_create_node;
    validate = master_validate profile;
  }
