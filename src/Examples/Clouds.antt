-- ===== src/Examples/Clouds.antt =====
-- A cloud in which every call succeeds, one in which every write of a node meets a conflict, and a
-- small cluster.
use aks_engine.Common.{String, true, false, none, some, List, [], ◌∷◌, ok, err}
use aks_engine.Cloud.{Env, VirtualMachine, linux, Node, Pod, modified}
use aks_engine.Cluster.{Properties, AgentPoolProfile, MasterProfile}
use aks_engine.Upgrade.Agents.{AgentPoolTopology}
use aks_engine.Upgrade.ScaleSets.{AgentPoolScaleSet}

abbrev pub machine : String → String → VirtualMachine
machine name state = record {
  name = name;
  os_type = linux;
  vhd_uri = none;
  has_managed_disk = true;
  os_disk_name = some "disk";
  nic_ids = some "a/nic" ∷ [];
  principal_id = none;
  provisioning_state = some state;
  pool_name_tag = some "pool1";
  orchestrator_tag = none;
  availability_set_id = none;
}

abbrev pub ready_node : String → Node
ready_node name = record {
  name = name;
  unschedulable = false;
  annotations = none;
  labels = none;
  taints = none;
  conditions = record { is_ready_type = true; is_true = true } ∷ [];
  kubelet_version = "v1.12.8";
}

abbrev pub two_pods : List Pod
two_pods =
    record { namespace = "default"; name = "web"; annotations = []; owner_references = [] }
    ∷ record { namespace = "default"; name = "db"; annotations = []; owner_references = [] }
    ∷ []

abbrev pub healthy : Env
healthy = record {
  vm_of = λ h name. ok (machine name "Succeeded");
  answer = λ h. ok tt;
  role_pages = λ h principal. [];
  node_of = λ h name. ok (ready_node name);
  updated_node = λ h n. ok n;
  pods_on = λ h name. ok two_pods;
  eviction_version = λ h. ok "v1";
  eviction_result = λ h pods. ok tt;
  all_scale_sets = λ h. [];
  all_vms = λ h. [];
  autoscaler_replicas = λ h. ok 1;
  scale_set_pages = λ h vmss.
      ok (
        record {
          computer_name = "node1";
          instance_id = "1";
          orchestrator_tag = none;
          latest_model_applied = true;
        }
        ∷ [])
      ∷ [];
  template_result = λ h. ok tt;
  rounds = λ h. 2;
  pool_parameters = λ pool. true;
  blob_parts = λ uri. none;
}

abbrev pub conflicting : Env
conflicting = record healthy { updated_node = λ h n. err modified }

abbrev pub pool_profile : AgentPoolProfile
pool_profile = record {
  name = "pool1";
  count = 2;
  is_windows = false;
  windows_name_version = "";
  is_virtual_machine_scale_sets = false;
  preserve_nodes_properties = none;
}

abbrev pub masters_profile : MasterProfile
masters_profile = record { count = 1; is_managed_disks = true }

abbrev pub properties : Properties
properties = record {
  cluster_id = "12345678";
  orchestrator_version = "1.13.9";
  is_kubernetes = true;
  has_windows = false;
  has_hosted_master_profile = false;
  master_profile = some masters_profile;
  agent_pool_profiles = pool_profile ∷ [];
}

abbrev pub old_agents : List VirtualMachine
old_agents =
    machine "k8s-pool1-12345678-0" "Succeeded" ∷ machine "k8s-pool1-12345678-1" "Succeeded" ∷ []

abbrev pub pool : AgentPoolTopology
pool = record {
  identifier = "pool1";
  name = "pool1";
  agent_vms = old_agents;
  upgraded_agent_vms = [];
}

abbrev pub done_pool : AgentPoolTopology
done_pool = record pool { agent_vms = []; upgraded_agent_vms = old_agents }

abbrev pub old_masters : List VirtualMachine
old_masters =
    machine "k8s-master-12345678-0" "Succeeded" ∷ machine "k8s-master-12345678-1" "Succeeded" ∷ []

abbrev pub scale_set : AgentPoolScaleSet
scale_set = record {
  name = "k8s-pool2-12345678-vmss";
  capacity = 1;
  is_windows = false;
  vms_to_upgrade = record { name = "node0"; instance_id = "0" } ∷ [];
}

-- An API server without evictions, and a node with a pod of a daemon set.
abbrev pub three_pods : List Pod
three_pods =
    record {
      namespace = "kube-system";
      name = "agent";
      annotations = [];
      owner_references = record { is_controller = true; kind = "DaemonSet" } ∷ [];
    }
    ∷ two_pods

abbrev pub without_evictions : Env
without_evictions = record healthy {
  pods_on = λ h name. ok three_pods;
  eviction_version = λ h. ok "";
}
