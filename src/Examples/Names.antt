-- ===== src/Examples/Names.antt =====
-- The name of a machine of a pool, and the index that is read back from it.
use aks_engine.Common.{◌≡◌, refl, ok, some, String, arith}
use aks_engine.Cloud.{linux}
use aks_engine.Cluster.{get_agent_pool_index_by_name}
use aks_engine.Patterns.{all_of, is_hex}
use aks_engine.Names.{get_vm_name_index, get_k8s_vm_name}
use aks_engine.Names.RoundTrip.{get_vm_name_index-get_k8s_vm_name}
use aks_engine.Examples.Clouds.{properties, pool_profile}

pool_found : get_agent_pool_index_by_name properties "pool1" ≡ some 0
unfolding get_agent_pool_index_by_name
pool_found = refl

get_vm_name_index-get_k8s_vm_name_example :
    (name : String) × (get_k8s_vm_name properties pool_profile 12 ≡ ok name)
    × (get_vm_name_index linux name ≡ ok 12)
unfolding all_of is_hex
get_vm_name_index-get_k8s_vm_name_example =
    get_vm_name_index-get_k8s_vm_name properties pool_profile 0 12 refl refl refl pool_found refl
      refl refl refl (omega arith)
