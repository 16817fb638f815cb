-- ===== src/Names/Examples.antt =====
-- Runs of the name functions of pkg/armhelpers/utils/util.go.
use aks_engine.Common.{◌≡◌, refl, ok, err}
use aks_engine.Cloud.{linux, windows}
use aks_engine.Names.{
  missing, k8s_linux_vm_name_parts, vmss_name_parts, windows_vmss_name_parts, windows_vm_name_parts,
  get_vm_name_index, resource_name,
}

linux_name :
    k8s_linux_vm_name_parts "k8s-agent-pool1-38988164-10" ≡ ok ("agent-pool1", "38988164", 10)
unfolding k8s_linux_vm_name_parts
linux_name = refl

vmss_name : vmss_name_parts "k8s-agentpool1-38988164-vmss" ≡ ok ("agentpool1", "38988164")
unfolding vmss_name_parts
vmss_name = refl

windows_name : windows_vm_name_parts "38988k8s90312" ≡ ok ("38988", "k8s", 3, 12)
unfolding windows_vm_name_parts
windows_name = refl

windows_index : get_vm_name_index windows "1708k8s020" ≡ ok 0
unfolding get_vm_name_index windows_vm_name_parts
windows_index = refl

no_name : get_vm_name_index linux "vm-1" ≡ err missing
unfolding get_vm_name_index k8s_linux_vm_name_parts
no_name = refl

windows_vmss : windows_vmss_name_parts "2345akspool1" ≡ ok "pool1"
unfolding windows_vmss_name_parts
windows_vmss = refl

nic_name : resource_name "/subscriptions/1/nic0" ≡ ok "nic0"
unfolding resource_name
nic_name = refl
