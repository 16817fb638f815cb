-- ===== src/Upgrade/ScaleSets.antt =====
-- pkg/operations/kubernetesupgrade/upgrader.go: `upgradeAgentScaleSets`.
pub mod Counts
use aks_engine.Common.{
  ℕ, zero, suc, ◌+◌, String, Bool, true, false, Option, none, some, List, [], ◌∷◌, if◌then◌else◌,
  ◌==◌, string_eq, find?, is_empty, Result, ok, err,
}
use aks_engine.Cloud.{
  Env, Page, ScaleSetVm, deploy_scale_sets, set_capacity, list_scale_set_vms, delete_scale_set_vm,
}
use aks_engine.Cloud.Actions.{
  Failure, api, no_last_vm, Action, pure, fail, request, when◌take◌otherwise◌, ignore, ◌>>=◌, ◌>>◌,
}
use aks_engine.Names.{NameError, vmss_name_parts, windows_vmss_name_parts}
use aks_engine.Cluster.{AgentPoolProfile, Properties}
use aks_engine.Operations.Drain.{safely_drain_node_with_client}
use aks_engine.Upgrade.Lower.{to_lower}
use aks_engine.Upgrade.Nodes.{get_kubernetes_client}
use aks_engine.Upgrade.Copy.{copy_custom_properties_to_new_node}
use aks_engine.Upgrade.Masters.{prepare_template}
use aks_engine.Upgrade.Agents.{preserves}

pub record AgentPoolScaleSetVm : Type 0 where
  pub name : String
  pub instance_id : String

-- `capacity` is `*Sku.Capacity` as it was listed. The entries for the pages of one set share the
-- pointer.
pub record AgentPoolScaleSet : Type 0 where
  pub name : String
  pub capacity : ℕ
  pub is_windows : Bool
  pub vms_to_upgrade : List AgentPoolScaleSetVm

-- poolName, _ := …: beside an error the name is "".
abbrev pool_or_empty : Result NameError (String × String) → String
pool_or_empty (ok (pool, id)) = pool
pool_or_empty (err e) = ""

abbrev name_or_empty : Result NameError String → String
name_or_empty (ok pool) = pool
name_or_empty (err e) = ""

unfoldable pub pool_name_of : AgentPoolScaleSet → String
pool_name_of vmss =
    if vmss.is_windows
    then name_or_empty (windows_vmss_name_parts vmss.name)
    else pool_or_empty (vmss_name_parts vmss.name)

-- `agentPoolMap` holds the last profile of a name; no profile means that properties are copied.
unfoldable pub last_named :
    String → Option AgentPoolProfile → List AgentPoolProfile → Option AgentPoolProfile
last_named name found [] = found
last_named name found (app ∷ apps) =
    last_named name (if app.name == name then some app else found) apps

unfoldable pub preserves_properties : List AgentPoolProfile → AgentPoolScaleSet → Bool
unfolding last_named pool_name_of
preserves_properties profiles vmss = elim (last_named (pool_name_of vmss) none profiles) [
  | none ↦ true
  | some app ↦ preserves app
]

-- How many times the capacity of a set was raised.
abbrev times : String → List String → ℕ
times name [] = 0
times name (n ∷ ns) = if n == name then times name ns + 1 else times name ns

abbrev pub raises : String → List AgentPoolScaleSetVm → List String → List String
raises name [] raised = raised
raises name (vm ∷ vms) raised = name ∷ raised

abbrev last_name : String → List ScaleSetVm → String
last_name name [] = name
last_name name (vm ∷ vms) = last_name vm.computer_name vms

module _ (env : Env) where
  unfoldable pub last_of_pages : String → List (Page ScaleSetVm) → Action String
  last_of_pages name [] = pure name
  last_of_pages name (err e ∷ pages) = fail (api e)
  last_of_pages name (ok vms ∷ pages) = last_of_pages (last_name name vms) pages

  unfoldable pub all_pages : String → Action (List (Page ScaleSetVm))
  all_pages vmss = request (list_scale_set_vms vmss) (λ h. ok (env.scale_set_pages h vmss))

  unfoldable pub get_last_vm_name_in_vmss : String → Action String
  get_last_vm_name_in_vmss vmss = do
    pages ← all_pages vmss
    name ← last_of_pages "" pages
    when is_empty name take fail (no_last_vm vmss) otherwise pure name

  -- Copying is skipped, or its failure only logged; the name of the new node must be found.
  unfoldable pub copy_to_last : Bool → String → String → Action (Unit {0})
  copy_to_last false vmss old = pure tt
  copy_to_last true vmss old = do
    new ← get_last_vm_name_in_vmss vmss
    ignore (copy_custom_properties_to_new_node env (to_lower old) (to_lower new))

  -- One machine of a scale set: raise the capacity, drain, copy, delete.
  unfoldable pub replace_scale_set_vm :
      Properties → Bool → String → ℕ → AgentPoolScaleSetVm → Action (Unit {0})
  replace_scale_set_vm p preserve vmss capacity vm = do
    request (set_capacity vmss capacity) env.answer
    get_kubernetes_client env p
    safely_drain_node_with_client env (to_lower vm.name)
    copy_to_last preserve vmss vm.name
    request (delete_scale_set_vm vmss vm.instance_id) env.answer

  unfoldable pub replace_scale_set_vms :
      Properties → Bool → String → ℕ → List AgentPoolScaleSetVm → Action (Unit {0})
  replace_scale_set_vms p preserve vmss capacity [] = pure tt
  replace_scale_set_vms p preserve vmss capacity (vm ∷ vms) = do
    replace_scale_set_vm p preserve vmss capacity vm
    replace_scale_set_vms p preserve vmss capacity vms

  -- A set with nothing to upgrade takes no round of the inner loop, so its `continue` only keeps its
  -- capacity as it is. `raised` names the sets of the entries before whose capacity was raised by
  -- one; a later entry of the set sees the raised capacity.
  unfoldable pub upgrade_scale_sets :
      Properties → List String → List AgentPoolScaleSet → Action (Unit {0})
  upgrade_scale_sets p raised [] = pure tt
  upgrade_scale_sets p raised (vmss ∷ rest) = do
    replace_scale_set_vms p (preserves_properties p.agent_pool_profiles vmss) vmss.name
        (vmss.capacity + times vmss.name raised + 1) vmss.vms_to_upgrade
    upgrade_scale_sets p (raises vmss.name vmss.vms_to_upgrade raised) rest

  -- The template is deployed once, before any machine is touched, if there is any scale set.
  unfoldable pub upgrade_agent_scale_sets : Properties → List AgentPoolScaleSet → Action (Unit {0})
  upgrade_agent_scale_sets p [] = pure tt
  upgrade_agent_scale_sets p (vmss ∷ rest) = do
    prepare_template env
    request deploy_scale_sets env.answer
    upgrade_scale_sets p [] (vmss ∷ rest)
