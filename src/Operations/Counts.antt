-- ===== src/Operations/Counts.antt =====
-- What draining a node and deleting a machine do to the number of machines.
use aks_engine.Common.{
  ℕ, zero, suc, refl, String, Option, none, some, List, [], ◌∷◌, arith, ok, err,
}
use aks_engine.Cloud.{Env, Page, Pod, VirtualMachine}
use aks_engine.Cloud.Actions.{fail}
use aks_engine.Cloud.Counts.{Quiet, quiet_rules, Quiet-bind, Quiet-recover, Quiet-when}
use aks_engine.Cloud.Effects.{
  Effect, Effect-bind, Effect-Quiet, Effect-when, Effect-fail, Effect-delete,
}
use aks_engine.Operations.Drain.{
  cordon, get_pods_for_deletion, delete_each, delete_pods, delete_or_evict_pods,
  delete_or_evict_pods_simple, safely_drain_node_with_client, is_modified, is_not_found,
}
use aks_engine.Operations.DeleteVm.{
  nic_name_of, name_or_fail, delete_os_blob, delete_os_disk, delete_disk_of, delete_roles,
  delete_role_pages, delete_roles_of, delete_belongings, clean_delete_virtual_machine,
}
use aks_engine.Names.{resource_name}

module _ (env : Env) where
  cordon-Quiet : (tries : ℕ) (name : String) → Quiet (cordon env tries name)
  unfolding cordon
  cordon-Quiet zero name = search quiet_rules
  cordon-Quiet (suc tries) name = Quiet-bind _ _ (search quiet_rules) λ node.
      Quiet-recover _ _ _ (search quiet_rules) (λ updated. search quiet_rules)
        λ e.
          Quiet-when (is_modified e) (cordon env tries name) (fail e) (cordon-Quiet tries name)
            (search quiet_rules)

  get_pods_for_deletion-Quiet : (name : String) → Quiet (get_pods_for_deletion env name)
  unfolding get_pods_for_deletion
  get_pods_for_deletion-Quiet name = search quiet_rules

  delete_each-Quiet : (pods : List Pod) → Quiet (delete_each env pods)
  unfolding delete_each
  delete_each-Quiet [] = search quiet_rules
  delete_each-Quiet (pod ∷ pods) =
      let ih = delete_each-Quiet pods in
      Quiet-recover _ _ _ (search quiet_rules) (λ _. ih)
        λ e. Quiet-when (is_not_found e) (delete_each env pods) (fail e) ih (search quiet_rules)

  delete_pods-Quiet : (pods : List Pod) → Quiet (delete_pods env pods)
  unfolding delete_pods
  delete_pods-Quiet pods = search (quiet_rules, delete_each-Quiet pods)

  delete_or_evict_pods-Quiet : (pods : List Pod) → Quiet (delete_or_evict_pods env pods)
  unfolding delete_or_evict_pods
  delete_or_evict_pods-Quiet [] = search quiet_rules
  delete_or_evict_pods-Quiet (pod ∷ pods) =
      Quiet-bind _ _ (search quiet_rules) (λ v. search (quiet_rules, delete_pods-Quiet))

  -- Draining a node, whether or not it succeeds, asks for no deletion and no deployment of a
  -- machine.
  pub safely_drain-Quiet : (name : String) → Quiet (safely_drain_node_with_client env name)
  unfolding safely_drain_node_with_client delete_or_evict_pods_simple
  safely_drain-Quiet name =
      search (quiet_rules, cordon-Quiet 5, get_pods_for_deletion-Quiet, delete_or_evict_pods-Quiet)

  delete_roles-Quiet : (ids : List String) → Quiet (delete_roles env ids)
  unfolding delete_roles
  delete_roles-Quiet [] = search quiet_rules
  delete_roles-Quiet (id ∷ ids) = Quiet-bind _ _ (search quiet_rules) (λ _. delete_roles-Quiet ids)

  delete_role_pages-Quiet : (pages : List (Page String)) → Quiet (delete_role_pages env pages)
  unfolding delete_role_pages
  delete_role_pages-Quiet [] = search quiet_rules
  delete_role_pages-Quiet (err e ∷ pages) = search quiet_rules
  delete_role_pages-Quiet (ok ids ∷ pages) =
      Quiet-bind _ _ (delete_roles-Quiet ids) (λ _. delete_role_pages-Quiet pages)

  delete_roles_of-Quiet : (principal : Option String) → Quiet (delete_roles_of env principal)
  unfolding delete_roles_of
  delete_roles_of-Quiet none = search quiet_rules
  delete_roles_of-Quiet (some principal) = search (quiet_rules, delete_role_pages-Quiet)

  delete_os_blob-Quiet :
      (parts : Option (String × String × String)) → Quiet (delete_os_blob env parts)
  unfolding delete_os_blob
  delete_os_blob-Quiet none = search quiet_rules
  delete_os_blob-Quiet (some (account, container, blob)) = search quiet_rules

  delete_os_disk-Quiet : (disk : Option String) → Quiet (delete_os_disk env disk)
  unfolding delete_os_disk
  delete_os_disk-Quiet none = search quiet_rules
  delete_os_disk-Quiet (some disk) = search quiet_rules

  delete_disk_of-Quiet :
      (vm : VirtualMachine) (uri : Option String) → Quiet (delete_disk_of env vm uri)
  unfolding delete_disk_of
  delete_disk_of-Quiet vm none = search (quiet_rules, delete_os_disk-Quiet)
  delete_disk_of-Quiet vm (some uri) = search (quiet_rules, delete_os_blob-Quiet)

  delete_belongings-Quiet :
      (vm : VirtualMachine) (nic : String) → Quiet (delete_belongings env vm nic)
  unfolding delete_belongings
  delete_belongings-Quiet vm nic = search (quiet_rules, delete_disk_of-Quiet, delete_roles_of-Quiet)

  nic_name_of-Quiet : (nics : List (Option String)) → Quiet (nic_name_of nics)
  unfolding nic_name_of
  nic_name_of-Quiet [] = search quiet_rules
  nic_name_of-Quiet (none ∷ nics) = search quiet_rules
  nic_name_of-Quiet (some id ∷ nics) = elim (resource_name id) as (λ r. Quiet (name_or_fail r)) [
    | ok name ↦ search quiet_rules
    | err e ↦ search quiet_rules
  ]

  -- `CleanDeleteVirtualMachine` asks for exactly one deletion of a machine if it succeeds, for at
  -- most one if it fails, and deploys none.
  pub clean_delete-Effect : (name : String) → Effect 1 0 1 (clean_delete_virtual_machine env name)
  unfolding clean_delete_virtual_machine
  clean_delete-Effect name =
      Effect-bind 0 0 0 1 0 1 1 _ _ (omega arith) (omega arith)
        (Effect-Quiet _ (search quiet_rules))
        λ vm. Effect-when 1 0 1 _ _ _ (Effect-fail 1 0 1 _) (
          Effect-bind 0 0 0 1 0 1 1 _ _ (omega arith) (omega arith)
            (Effect-Quiet _ (nic_name_of-Quiet vm.nic_ids))
            λ nic.
              Effect-bind 1 0 1 0 0 0 1 _ _ (omega arith) (omega arith) (Effect-delete _ _ refl)
                λ _. Effect-Quiet _ (delete_belongings-Quiet vm nic))
