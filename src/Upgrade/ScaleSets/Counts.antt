-- ===== src/Upgrade/ScaleSets/Counts.antt =====
-- How many machines the upgrade of the scale sets deletes.
use aks_engine.Common.{
  ℕ, suc, ◌+◌, refl, String, Bool, true, false, List, [], ◌∷◌, length, arith, ok, err,
}
use aks_engine.Cloud.{Env, Reply, Page, ScaleSetVm}
use aks_engine.Cloud.Counts.{Quiet, quiet_rules, Quiet-request, Quiet-with_history}
use aks_engine.Cloud.Effects.{Effect, Effect-Quiet, Effect-sum, Effect-delete}
use aks_engine.Operations.Counts.{safely_drain-Quiet}
use aks_engine.Cluster.{Properties}
use aks_engine.Upgrade.Copy.Quiet.{copy_custom-Quiet}
use aks_engine.Upgrade.Nodes.Effects.{get_kubernetes_client-Quiet}
use aks_engine.Upgrade.Masters.{lift, prepare_template}
use aks_engine.Upgrade.ScaleSets.{
  AgentPoolScaleSet, AgentPoolScaleSetVm, all_pages, last_of_pages, last_name,
  get_last_vm_name_in_vmss, copy_to_last, replace_scale_set_vm, replace_scale_set_vms, raises,
  upgrade_scale_sets, upgrade_agent_scale_sets,
}

unfoldable pub vms_to_upgrade_in : List AgentPoolScaleSet → ℕ
vms_to_upgrade_in [] = 0
vms_to_upgrade_in (vmss ∷ rest) = length vmss.vms_to_upgrade + vms_to_upgrade_in rest

lift-Quiet : (r : Reply (Unit {0})) → Quiet (lift r)
lift-Quiet (ok _) = search quiet_rules
lift-Quiet (err e) = search quiet_rules

module _ (env : Env) where
  last_of_pages-Quiet :
      (name : String) (pages : List (Page ScaleSetVm)) → Quiet (last_of_pages env name pages)
  unfolding last_of_pages
  last_of_pages-Quiet name [] = search quiet_rules
  last_of_pages-Quiet name (err e ∷ pages) = search quiet_rules
  last_of_pages-Quiet name (ok vms ∷ pages) = last_of_pages-Quiet (last_name name vms) pages

  all_pages-Quiet : (vmss : String) → Quiet (all_pages env vmss)
  unfolding all_pages
  all_pages-Quiet vmss = search quiet_rules

  get_last-Quiet : (vmss : String) → Quiet (get_last_vm_name_in_vmss env vmss)
  unfolding get_last_vm_name_in_vmss
  get_last-Quiet vmss = search (quiet_rules, all_pages-Quiet, last_of_pages-Quiet)

  copy_to_last-Quiet :
      (preserve : Bool) (vmss old : String) → Quiet (copy_to_last env preserve vmss old)
  unfolding copy_to_last
  copy_to_last-Quiet false vmss old = search quiet_rules
  copy_to_last-Quiet true vmss old = search (quiet_rules, get_last-Quiet, copy_custom-Quiet)

  replace_scale_set_vm-Effect :
      (p : Properties) (preserve : Bool) (vmss : String) (capacity : ℕ) (vm : AgentPoolScaleSetVm)
      → Effect 1 0 1 (replace_scale_set_vm env p preserve vmss capacity vm)
  unfolding replace_scale_set_vm
  replace_scale_set_vm-Effect p preserve vmss capacity vm =
      Effect-sum 0 0 0 1 0 1 1 0 1 _ _ (ground arith) (Effect-Quiet _ (Quiet-request _ _ refl)) λ _.
        Effect-sum 0 0 0 1 0 1 1 0 1 _ _ (ground arith)
          (Effect-Quiet _ (get_kubernetes_client-Quiet env p))
          λ _.
            Effect-sum 0 0 0 1 0 1 1 0 1 _ _ (ground arith)
              (Effect-Quiet _ (safely_drain-Quiet env _))
              λ _.
                Effect-sum 0 0 0 1 0 1 1 0 1 _ _ (ground arith)
                  (Effect-Quiet _ (copy_to_last-Quiet preserve vmss vm.name))
                  λ _. Effect-delete _ _ refl

  replace_scale_set_vms-Effect :
      (p : Properties) (preserve : Bool) (vmss : String) (capacity : ℕ)
      (vms : List AgentPoolScaleSetVm)
      → Effect (length vms) 0 (length vms) (replace_scale_set_vms env p preserve vmss capacity vms)
  unfolding replace_scale_set_vms
  replace_scale_set_vms-Effect p preserve vmss capacity [] = Effect-Quiet _ (search quiet_rules)
  replace_scale_set_vms-Effect p preserve vmss capacity (vm ∷ vms) =
      let n = length vms in
      Effect-sum 1 0 1 n 0 n (suc n) 0 (suc n) _ _ (ground arith)
        (replace_scale_set_vm-Effect p preserve vmss capacity vm)
        (λ _. replace_scale_set_vms-Effect p preserve vmss capacity vms)

  upgrade_scale_sets-Effect :
      (p : Properties) (raised : List String) (sets : List AgentPoolScaleSet)
      → Effect
          (vms_to_upgrade_in sets)
          0
          (vms_to_upgrade_in sets)
          (upgrade_scale_sets env p raised sets)
  unfolding upgrade_scale_sets vms_to_upgrade_in
  upgrade_scale_sets-Effect p raised [] = Effect-Quiet _ (search quiet_rules)
  upgrade_scale_sets-Effect p raised (vmss ∷ rest) =
      let n = length vmss.vms_to_upgrade in
      let k = vms_to_upgrade_in rest in
      Effect-sum n 0 n k 0 k (n + k) 0 (n + k) _ _ (ground arith)
        (replace_scale_set_vms-Effect p _ vmss.name _ vmss.vms_to_upgrade)
        (λ _. upgrade_scale_sets-Effect p (raises vmss.name vmss.vms_to_upgrade raised) rest)

  prepare_template-Quiet : Quiet (prepare_template env)
  prepare_template-Quiet = Quiet-with_history _ (λ h. lift-Quiet (env.template_result h))

  -- A successful upgrade of the scale sets makes as many deletions of scale set machines as the
  -- sets list for the upgrade; a failing one asks for no more. It never deploys a single machine.
  pub upgrade_agent_scale_sets_counts :
      (p : Properties) (sets : List AgentPoolScaleSet)
      → Effect
          (vms_to_upgrade_in sets)
          0
          (vms_to_upgrade_in sets)
          (upgrade_agent_scale_sets env p sets)
  unfolding upgrade_agent_scale_sets
  upgrade_agent_scale_sets_counts p [] =
      unfold vms_to_upgrade_in in Effect-Quiet _ (search quiet_rules)
  upgrade_agent_scale_sets_counts p (vmss ∷ rest) =
      let n = vms_to_upgrade_in (vmss ∷ rest) in
      Effect-sum 0 0 0 n 0 n n 0 n _ _ (ground arith) (Effect-Quiet _ prepare_template-Quiet) λ _.
        Effect-sum 0 0 0 n 0 n n 0 n _ _ (ground arith) (Effect-Quiet _ (Quiet-request _ _ refl))
          λ _. upgrade_scale_sets-Effect p [] (vmss ∷ rest)
