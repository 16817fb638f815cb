-- ===== src/Examples/Upgrade.antt =====
-- The theorems on the upgrade, for a small cluster in a cloud that answers.
use aks_engine.Common.{
  ℕ, ◌+◌, ◌≤◌, ◌<◌, ◌≡◌, ◌⊎◌, refl, inr, Bool, true, false, some, List, [], ◌∷◌, err, arith,
  string_eq,
}
use aks_engine.Cloud.Actions.{too_many_masters}
use aks_engine.Cloud.Counts.{deleted, created}
use aks_engine.Cloud.Effects.{Effect}
use aks_engine.Names.{get_k8s_vm_name}
use aks_engine.Upgrade.Nodes.{master_node, agent_node}
use aks_engine.Upgrade.Nodes.Effects.{NodeLaws, master_node-NodeLaws, agent_node-NodeLaws}
use aks_engine.Upgrade.Indices.{get_available_index, master_index_to_create, has_index, is_marked}
use aks_engine.Upgrade.Indices.Free.{get_available_index_least_free, master_index_to_create_least}
use aks_engine.Upgrade.Masters.{upgrade_masters}
use aks_engine.Upgrade.Masters.Counts.{upgrade_masters_counts, upgrade_masters_rolling}
use aks_engine.Upgrade.Copy.{copy_custom_properties_to_new_node}
use aks_engine.Upgrade.Copy.Quiet.{copy_custom-Quiet}
use aks_engine.Upgrade.Agents.{
  VmMap, not_upgraded, upgraded, replace_agents, upgrade_profile, upgrade_agent_pools,
}
use aks_engine.Upgrade.Agents.Counts.{olds, replace_agents_counts}
use aks_engine.Upgrade.Agents.Pools.{upgrade_profile_keeps, upgrade_agent_pools_stop}
use aks_engine.Upgrade.ScaleSets.{upgrade_agent_scale_sets}
use aks_engine.Upgrade.ScaleSets.Counts.{vms_to_upgrade_in, upgrade_agent_scale_sets_counts}
use aks_engine.Upgrade.Run.{ClusterTopology, run_upgrade, run_upgrade_refused}
use aks_engine.Examples.Clouds.{
  healthy, properties, pool_profile, masters_profile, pool, done_pool, old_masters, scale_set,
}

upgrade_profile_keeps_example :
    deleted (upgrade_profile healthy properties pool pool_profile []).1 + 0
    ≤ created (upgrade_profile healthy properties pool pool_profile []).1 + 0
upgrade_profile_keeps_example =
    upgrade_profile_keeps healthy properties pool pool_profile [] tt (omega arith)

upgrade_masters_rolling_example :
    deleted (upgrade_masters (master_node healthy (some masters_profile)) 3 [] old_masters []).1 + 0
    ≤ created (upgrade_masters (master_node healthy (some masters_profile)) 3 [] old_masters []).1
      + 0
      + 1
upgrade_masters_rolling_example =
    upgrade_masters_rolling (master_node healthy (some masters_profile))
      (master_node-NodeLaws healthy (some masters_profile)) 3 [] old_masters []

upgrade_masters_counts_example :
    Effect 2 3 2 (upgrade_masters (master_node healthy (some masters_profile)) 3 [] old_masters)
upgrade_masters_counts_example =
    upgrade_masters_counts (master_node healthy (some masters_profile))
      (master_node-NodeLaws healthy (some masters_profile)) 3 [] old_masters (omega arith)

abbrev cluster : ClusterTopology
cluster = record {
  properties = properties;
  master_vms = old_masters;
  upgraded_master_vms = [];
  agent_pool_scale_sets_to_upgrade = scale_set ∷ [];
  agent_pools = pool ∷ [];
}

run_upgrade_refused_example : run_upgrade healthy cluster [] ≡ (err (too_many_masters 2 1), [])
run_upgrade_refused_example =
    run_upgrade_refused healthy cluster masters_profile [] refl refl (omega arith)

abbrev two_old : VmMap
two_old =
    (0, record { name = "k8s-pool1-12345678-0"; status = not_upgraded })
    ∷ (1, record { name = "k8s-pool1-12345678-1"; status = not_upgraded })
    ∷ (2, record { name = "k8s-pool1-12345678-2"; status = upgraded })
    ∷ []

replace_agents_counts_example : Effect 2 1 2 (
    replace_agents
      (agent_node healthy properties "pool1")
      (get_k8s_vm_name properties pool_profile)
      true
      (copy_custom_properties_to_new_node healthy)
      2
      two_old
      0
      [])
unfolding olds
replace_agents_counts_example =
    replace_agents_counts (agent_node healthy properties "pool1")
      (agent_node-NodeLaws healthy properties "pool1") (get_k8s_vm_name properties pool_profile)
      true (copy_custom_properties_to_new_node healthy) 2 (copy_custom-Quiet healthy) two_old 0 []
      refl

upgrade_agent_pools_stop_example :
    upgrade_agent_pools healthy properties (done_pool ∷ pool ∷ [])
    ≡ upgrade_agent_pools healthy properties (done_pool ∷ [])
upgrade_agent_pools_stop_example =
    upgrade_agent_pools_stop healthy properties done_pool (pool ∷ []) (λ profile found. inr refl)

upgrade_agent_scale_sets_counts_example :
    Effect 1 0 1 (upgrade_agent_scale_sets healthy properties (scale_set ∷ []))
unfolding vms_to_upgrade_in
upgrade_agent_scale_sets_counts_example =
    upgrade_agent_scale_sets_counts healthy properties (scale_set ∷ [])

two_old_index : get_available_index two_old ≡ 3
unfolding get_available_index
two_old_index = refl

get_available_index_least_free_example :
    (has_index (get_available_index two_old) two_old ≡ false)
    × ((j : ℕ) → j < get_available_index two_old → (has_index j two_old ≡ true) ⊎ (two_old ≡ []))
get_available_index_least_free_example = get_available_index_least_free two_old

master_index_to_create_least_example :
    let m : List (ℕ × Bool) = (0, true) ∷ (2, true) ∷ [] in
    (is_marked (master_index_to_create m) m ≡ false)
    × ((j : ℕ) → j < master_index_to_create m → is_marked j m ≡ true)
master_index_to_create_least_example = master_index_to_create_least ((0, true) ∷ (2, true) ∷ [])

agent_node-NodeLaws_example : NodeLaws 1 (agent_node healthy properties "pool1")
agent_node-NodeLaws_example = agent_node-NodeLaws healthy properties "pool1"
