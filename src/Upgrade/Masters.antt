-- ===== src/Upgrade/Masters.antt =====
-- pkg/operations/kubernetesupgrade/upgrader.go: `upgradeMasterNodes`.
pub mod Counts
use aks_engine.Common.{
  ok, err, ℕ, zero, suc, ◌+◌, ◌-◌, String, Bool, true, false, Option, none, some, List, [], ◌∷◌,
  ltb, length, if◌then◌else◌, nat_eq, insert,
}
use aks_engine.Cloud.{Env, Reply, VirtualMachine}
use aks_engine.Cloud.Actions.{
  Failure, too_many_masters, Action, pure, fail, api, with_history, when◌take◌otherwise◌, ◌>>=◌,
  ◌>>◌,
}
use aks_engine.Names.{get_vm_name_index, index_or_zero}
use aks_engine.Cluster.{MasterProfile}
use aks_engine.Upgrade.Nodes.{UpgradeNode, master_node}
use aks_engine.Upgrade.Indices.{master_index_to_create}

-- masterIndex, _ := utils.GetVMNameIndex(…)
abbrev pub index_of : VirtualMachine → ℕ
index_of vm = index_or_zero (get_vm_name_index vm.os_type vm.name)

unfoldable pub mark_upgraded : List VirtualMachine → List (ℕ × Bool) → List (ℕ × Bool)
mark_upgraded [] m = m
mark_upgraded (vm ∷ vms) m = mark_upgraded vms (insert (index_of vm) true m)

module _ (node : UpgradeNode) where
  -- The loop over the masters that are to be upgraded, each deleted and made anew.
  unfoldable pub replace_masters : List VirtualMachine → List (ℕ × Bool) → Action (List (ℕ × Bool))
  replace_masters [] m = pure m
  replace_masters (vm ∷ vms) m = do
    node.delete vm.name false
    node.create (index_of vm)
    node.validate vm.name
    replace_masters vms (insert (index_of vm) true m)

  -- The loop that creates the masters that are missing, at the least free indices.
  unfoldable pub create_missing_masters : ℕ → List (ℕ × Bool) → Action (List (ℕ × Bool))
  create_missing_masters zero m = pure m
  create_missing_masters (suc rounds) m = do
    node.create (master_index_to_create m)
    node.validate ""
    create_missing_masters rounds (insert (master_index_to_create m) true m)

  -- The part of `upgradeMasterNodes` behind the template, by the expected count, the masters that
  -- are upgraded and those that are not.
  unfoldable pub upgrade_masters :
      ℕ → List VirtualMachine → List VirtualMachine → Action (List (ℕ × Bool))
  upgrade_masters expected upgraded masters =
      let in_cluster = length masters + length upgraded in
      when ltb expected in_cluster take fail (too_many_masters in_cluster expected) otherwise (do
        m ← replace_masters masters (mark_upgraded upgraded [])
        create_missing_masters (expected - in_cluster) m)

-- A result that no call gives.
abbrev pub lift : Reply (Unit {0}) → Action (Unit {0})
lift (ok _) = pure tt
lift (err e) = fail (api e)

module _ (env : Env) where
  -- `generateUpgradeTemplate` and the transformations of the template.
  abbrev pub prepare_template : Action (Unit {0})
  prepare_template = with_history (λ h. lift (env.template_result h))

  unfoldable pub upgrade_master_nodes :
      Option MasterProfile → List VirtualMachine → List VirtualMachine → Action (Unit {0})
  upgrade_master_nodes none upgraded masters = pure tt
  upgrade_master_nodes (some profile) upgraded masters = do
    prepare_template
    _ ← upgrade_masters (master_node env (some profile)) profile.count upgraded masters
    pure tt
