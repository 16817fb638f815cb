-- ===== src/Operations/Drain.antt =====
-- pkg/operations/cordondrainvm.go
use aks_engine.Common.{
  ℕ, zero, suc, String, Bool, true, false, not, ◌&&◌, Option, none, some, List, [], ◌∷◌, ◌==◌,
  string_eq, filter, find?, lookup, is_empty,
}
use aks_engine.Cloud.{
  not_found, modified, get_node, update_node, list_pods, support_eviction, evict_pods, delete_pod,
  wait_for_delete, Env, Node, Pod, OwnerReference,
}
use aks_engine.Cloud.Actions.{
  Failure, api, Action, pure, fail, request, when◌take◌otherwise◌, recover, ◌>>=◌, ◌>>◌,
}

abbrev pub cordon_max_retries : ℕ
cordon_max_retries = 5

abbrev pub is_none : Option String → Bool
is_none none = true
is_none (some s) = false

unfoldable pub mirror_pod_filter : Pod → Bool
mirror_pod_filter pod = is_none (lookup "kubernetes.io/config.mirror" pod.annotations)

unfoldable pub get_controller_ref : Pod → Option OwnerReference
get_controller_ref pod = find? (λ ref. ref.is_controller) pod.owner_references

abbrev not_daemon_set : Option OwnerReference → Bool
not_daemon_set none = true
not_daemon_set (some ref) = not (ref.kind == "DaemonSet")

unfoldable pub daemon_set_pod_filter : Pod → Bool
unfolding get_controller_ref
daemon_set_pod_filter pod = not_daemon_set (get_controller_ref pod)

-- The name of the node that the client returned; beside an error it returns an empty node.
abbrev pub name_of : Option Node → String
name_of (some node) = node.name
name_of none = ""

-- strings.Contains(err.Error(), kubernetesOptimisticLockErrorMsg)
abbrev pub is_modified : Failure → Bool
is_modified (api modified) = true
is_modified _ = false

-- apierrors.IsNotFound(err)
abbrev pub is_not_found : Failure → Bool
is_not_found (api not_found) = true
is_not_found _ = false

module _ (env : Env) where
  -- The cordon loop, by the tries left. A concurrent modification is tried again; after the last
  -- try the loop ends without an error, with the node that came beside the last error.
  unfoldable pub cordon : ℕ → String → Action (Option Node)
  cordon zero node_name = pure none
  cordon (suc tries) node_name = do
    node ← request (get_node node_name) (λ h. env.node_of h node_name)
    let cordoned = record node { unschedulable = true }
    recover (request (update_node cordoned) (λ h. env.updated_node h cordoned))
        (λ updated. pure (some updated))
        (λ e. when is_modified e take cordon tries node_name otherwise fail e)

  unfoldable pub get_pods_for_deletion : String → Action (List Pod)
  unfolding mirror_pod_filter daemon_set_pod_filter
  get_pods_for_deletion node_name = do
    pods ← request (list_pods node_name) (λ h. env.pods_on h node_name)
    pure (filter (λ pod. mirror_pod_filter pod && daemon_set_pod_filter pod) pods)

  -- A pod that is gone already is no error.
  unfoldable pub delete_each : List Pod → Action (Unit {0})
  delete_each [] = pure tt
  delete_each (pod ∷ pods) =
      let rest = delete_each pods in
      recover (request (delete_pod pod) env.answer) (λ _. rest)
        (λ e. when is_not_found e take rest otherwise fail e)

  -- It waits for all the pods, also for those that were gone already.
  unfoldable pub delete_pods : List Pod → Action (Unit {0})
  delete_pods pods = do delete_each pods; request (wait_for_delete pods false) env.answer

  unfoldable pub delete_or_evict_pods : List Pod → Action (Unit {0})
  delete_or_evict_pods [] = pure tt
  delete_or_evict_pods (pod ∷ pods) = do
    version ← request (support_eviction "policy") env.eviction_version
    when is_empty version
        take delete_pods (pod ∷ pods)
        otherwise request (evict_pods (pod ∷ pods) version)
            (λ h. env.eviction_result h (pod ∷ pods))

  unfoldable pub delete_or_evict_pods_simple : String → Action (Unit {0})
  delete_or_evict_pods_simple node_name = do
    pods ← get_pods_for_deletion node_name
    recover (delete_or_evict_pods pods) pure (λ e. get_pods_for_deletion node_name >>= λ _. fail e)

  unfoldable pub safely_drain_node_with_client : String → Action (Unit {0})
  safely_drain_node_with_client node_name = do
    node ← cordon cordon_max_retries node_name
    delete_or_evict_pods_simple (name_of node)
