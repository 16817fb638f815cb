-- ===== src/Operations/DeleteVm.antt =====
-- pkg/operations/deletevm.go
use aks_engine.Common.{
  String, Bool, true, false, not, ◌&&◌, Option, none, some, List, [], ◌∷◌, is_empty, Result, ok,
  err,
}
use aks_engine.Cloud.{
  get_vm, delete_vm, delete_nic, get_storage, delete_blob, delete_disk, list_roles, delete_role,
  Env, VirtualMachine, Page,
}
use aks_engine.Cloud.Actions.{
  api, no_os_disk, no_resource_name, bad_blob_uri, panic, Action, pure, fail, request,
  when◌take◌otherwise◌, ◌>>=◌, ◌>>◌,
}
use aks_engine.Names.{NameError, resource_name}

abbrev pub is_nil : Option String → Bool
is_nil none = true
is_nil (some s) = false

-- The name of the first network interface, "" where its identifier is not set.
abbrev pub name_or_fail : Result NameError String → Action String
name_or_fail (ok name) = pure name
name_or_fail (err e) = fail no_resource_name

unfoldable pub nic_name_of : List (Option String) → Action String
nic_name_of [] = fail panic
nic_name_of (none ∷ nics) = pure ""
nic_name_of (some id ∷ nics) = name_or_fail (resource_name id)

module _ (env : Env) where
  unfoldable pub delete_os_blob : Option (String × String × String) → Action (Unit {0})
  delete_os_blob none = fail bad_blob_uri
  delete_os_blob (some (account, container, blob)) = do
    request (get_storage account) env.answer
    request (delete_blob account container blob) env.answer

  unfoldable pub delete_os_disk : Option String → Action (Unit {0})
  delete_os_disk none = pure tt
  delete_os_disk (some disk) = request (delete_disk disk) env.answer

  -- The disk is a blob, or else a managed disk.
  unfoldable pub delete_disk_of : VirtualMachine → Option String → Action (Unit {0})
  delete_disk_of vm (some uri) = delete_os_blob (env.blob_parts uri)
  delete_disk_of vm none =
      when vm.has_managed_disk take delete_os_disk vm.os_disk_name otherwise pure tt

  unfoldable pub delete_roles : List String → Action (Unit {0})
  delete_roles [] = pure tt
  delete_roles (id ∷ ids) = do request (delete_role id) env.answer; delete_roles ids

  unfoldable pub delete_role_pages : List (Page String) → Action (Unit {0})
  delete_role_pages [] = pure tt
  delete_role_pages (err e ∷ pages) = fail (api e)
  delete_role_pages (ok ids ∷ pages) = do delete_roles ids; delete_role_pages pages

  unfoldable pub delete_roles_of : Option String → Action (Unit {0})
  delete_roles_of none = pure tt
  delete_roles_of (some principal) = do
    pages ← request (list_roles principal) (λ h. ok (env.role_pages h principal))
    delete_role_pages pages

  -- Everything behind the deletion of the machine itself.
  unfoldable pub delete_belongings : VirtualMachine → String → Action (Unit {0})
  delete_belongings vm nic_name = do
    when is_empty nic_name take pure tt otherwise request (delete_nic nic_name) env.answer
    delete_disk_of vm vm.vhd_uri
    delete_roles_of vm.principal_id

  unfoldable pub clean_delete_virtual_machine : String → Action (Unit {0})
  clean_delete_virtual_machine name = do
    vm ← request (get_vm name) (λ h. env.vm_of h name)
    when is_nil vm.vhd_uri && not vm.has_managed_disk take fail no_os_disk otherwise (do
      nic_name ← nic_name_of vm.nic_ids
      request (delete_vm name) env.answer
      delete_belongings vm nic_name)
