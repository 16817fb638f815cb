-- ===== src/Examples/Discovery.antt =====
-- The theorems on the discovery of machines and on the autoscaler, in a cloud that answers.
use aks_engine.Common.{◌≡◌, refl, true, false, none, some, [], ◌∷◌, ok, err, All, sort_by, decimal}
use aks_engine.Versions.Table.{all_kubernetes_supported_versions}
use aks_engine.Versions.Select.{
  get_all_supported_kubernetes_versions, get_versions_gt, passes_gt, passes_lt, get_versions_lt,
  get_versions_between, intersect, copies, get_min_version, get_sorted_semver_versions,
  supported_map, usable_keys, is_kubernetes_version_ge,
}
use aks_engine.Orchestrators.{
  get_orchestrator_version_profile, kubernetes_info, is_version_supported, versions_map,
  kubernetes_upgrades, get_kubernetes_available_upgrade_versions,
}
use aks_engine.OrchestratorData.{equal_fold}
use aks_engine.Cloud.{VirtualMachine, get_autoscaler, update_autoscaler}
use aks_engine.Cloud.Actions.{Action, node_not_ready, pure, when◌take◌otherwise◌, ◌>>=◌}
use aks_engine.Names.{k8s_linux_vm_name_parts}
use aks_engine.Upgrade.Discovery.{
  Options, Topology, upgradable, visit_vms, visit_vm, sort_vm, add_vm_to_upgrade_sets, belongs,
  get_node_version, second_part,
}
use aks_engine.Upgrade.Discovery.Membership.{add_vm_to_agent_pool, vm_pool_name, pool_identifier}
use aks_engine.Common.{contains, has_prefix}
use aks_engine.Upgrade.Discovery.Safe.{Checked, visit_vms-Checked}
use aks_engine.Upgrade.Autoscaler.{set_cluster_autoscaler_replica_count, attempts, while_paused}
use aks_engine.Upgrade.Autoscaler.Resumed.{Outcome, while_paused-Outcome}
use aks_engine.Examples.Releases.{releases}
use aks_engine.Examples.Clouds.{healthy, properties, machine, pool}

upgradable_run : upgradable releases properties "1.12.8" [] ≡ (ok tt, [])
unfolding upgradable get_orchestrator_version_profile kubernetes_info is_version_supported
    versions_map get_all_supported_kubernetes_versions all_kubernetes_supported_versions
    kubernetes_upgrades get_kubernetes_available_upgrade_versions get_versions_gt passes_gt
    passes_lt get_versions_lt get_versions_between intersect copies get_min_version
    get_sorted_semver_versions sort_by decimal supported_map usable_keys is_kubernetes_version_ge
    when◌take◌otherwise◌ pure
upgradable_run = refl

abbrev old_vm : VirtualMachine
old_vm = record (machine "k8s-pool1-12345678-0" "Succeeded") {
  orchestrator_tag = some "Kubernetes:1.12.8";
}

abbrev options : Options
options = record {
  force = false;
  name_suffix = "12345678";
  agent_pools_to_upgrade = ("pool1", true) ∷ [];
  is_vmss_to_be_upgraded = none;
}

abbrev before : Topology
before = record {
  profiles = [];
  scale_sets = [];
  agent_pools = [];
  master_vms = [];
  upgraded_master_vms = [];
  availability_set_ids = [];
}

abbrev after : Topology
after = record before { agent_pools = ("pool1", record pool { agent_vms = old_vm ∷ [] }) ∷ [] }

visit_run :
    visit_vms releases healthy true options properties (old_vm ∷ []) before [] ≡ (ok after, [])
unfolding visit_vms visit_vm sort_vm add_vm_to_upgrade_sets belongs get_node_version second_part
    contains has_prefix add_vm_to_agent_pool vm_pool_name pool_identifier k8s_linux_vm_name_parts
    ◌>>=◌ upgradable get_orchestrator_version_profile kubernetes_info is_version_supported
    versions_map get_all_supported_kubernetes_versions all_kubernetes_supported_versions
    kubernetes_upgrades get_kubernetes_available_upgrade_versions get_versions_gt passes_gt
    passes_lt get_versions_lt get_versions_between intersect copies get_min_version
    get_sorted_semver_versions sort_by decimal supported_map usable_keys is_kubernetes_version_ge
    equal_fold
visit_run = refl

visit_vms-Checked_example : All (Checked releases options properties healthy true) (old_vm ∷ [])
visit_vms-Checked_example =
    visit_vms-Checked releases options properties healthy true (old_vm ∷ []) before after [] [] refl
      refl visit_run

abbrev failing : Action (Unit {0})
failing h = (err node_not_ready, h)

while_paused-Outcome_example :
    Outcome healthy false true failing [] (while_paused healthy false true failing [])
while_paused-Outcome_example = while_paused-Outcome healthy false true failing []

while_paused_run : while_paused healthy false true failing [] ≡ (
  err node_not_ready,
  update_autoscaler 1 ∷ get_autoscaler ∷ update_autoscaler 0 ∷ get_autoscaler ∷ [],
)
unfolding while_paused set_cluster_autoscaler_replica_count attempts ◌>>=◌
while_paused_run = refl
