-- ===== src/Upgrade/Copy/Quiet.antt =====
-- Copying the properties of a node to another deletes and makes no machine.
use aks_engine.Common.{ℕ, zero, suc, String}
use aks_engine.Cloud.{Env, Node}
use aks_engine.Cloud.Counts.{Quiet, quiet_rules, Quiet-recover}
use aks_engine.Operations.Counts.{safely_drain-Quiet}
use aks_engine.Upgrade.Copy.{
  copy_custom_node_properties, copy_round, copy_rounds, copy_custom_properties_to_new_node,
}

module _ (env : Env) where
  copy_custom_node_properties-Quiet :
      (old_name new_name : String) (old new : Node)
      → Quiet (copy_custom_node_properties env old_name new_name old new)
  unfolding copy_custom_node_properties
  copy_custom_node_properties-Quiet old_name new_name old new = search quiet_rules

  copy_round-Quiet : (old_name new_name : String) → Quiet (copy_round env old_name new_name)
  unfolding copy_round
  copy_round-Quiet old_name new_name = search (quiet_rules, copy_custom_node_properties-Quiet)

  copy_rounds-Quiet :
      (rounds : ℕ) (old_name new_name : String) → Quiet (copy_rounds env rounds old_name new_name)
  unfolding copy_rounds
  copy_rounds-Quiet zero old_name new_name = search quiet_rules
  copy_rounds-Quiet (suc rounds) old_name new_name =
      Quiet-recover _ _ _ (copy_round-Quiet old_name new_name) (λ _. search quiet_rules)
        (λ _. copy_rounds-Quiet rounds old_name new_name)

  pub copy_custom-Quiet :
      (old_name new_name : String)
      → Quiet (copy_custom_properties_to_new_node env old_name new_name)
  unfolding copy_custom_properties_to_new_node
  copy_custom-Quiet old_name new_name = search (quiet_rules, safely_drain-Quiet, copy_rounds-Quiet)
