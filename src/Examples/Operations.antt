-- ===== src/Examples/Operations.antt =====
-- The theorems on draining and deleting, in a cloud that answers.
use aks_engine.Common.{filter, ◌≡◌, refl, true, false, none, some, [], ◌∷◌, ok}
use aks_engine.Cloud.{
  History, wait_for_delete, support_eviction, list_pods, Node, Pod, get_node, update_node,
  delete_pod,
}
use aks_engine.Cloud.Actions.{pure, request, recover, ◌>>=◌}
use aks_engine.Operations.Drain.{
  delete_or_evict_pods_simple, delete_or_evict_pods, delete_pods, get_pods_for_deletion, cordon,
  delete_each,
}
use aks_engine.Operations.Draining.{deletable, after_deleting, delete_or_evict_pods_simple_calls}
use aks_engine.Operations.Cordon.{Cordoned, cordon-Cordoned, cordon_conflicts}
use aks_engine.Examples.Clouds.{
  three_pods, without_evictions, healthy, conflicting, ready_node, two_pods,
}

abbrev cordoned_node : Node
cordoned_node = record (ready_node "node0") { unschedulable = true }

cordon_run :
    cordon healthy 5 "node0" []
    ≡ (ok (some cordoned_node), update_node cordoned_node ∷ get_node "node0" ∷ [])
unfolding cordon ◌>>=◌
cordon_run = refl

cordon-Cordoned_example : Cordoned (update_node cordoned_node ∷ get_node "node0" ∷ [])
cordon-Cordoned_example =
    cordon-Cordoned healthy 5 "node0" [] (update_node cordoned_node ∷ get_node "node0" ∷ [])
      cordoned_node cordon_run

cordon_conflicts_example : (cordon conflicting 5 "node0" []).0 ≡ ok none
cordon_conflicts_example =
    cordon_conflicts conflicting 5 "node0" [] (λ h n. refl) (λ h. (ready_node "node0", refl))

abbrev web : Pod
web = record { namespace = "default"; name = "web"; annotations = []; owner_references = [] }

abbrev db : Pod
db = record { namespace = "default"; name = "db"; annotations = []; owner_references = [] }

delete_each_run : delete_each healthy two_pods [] ≡ (ok tt, delete_pod db ∷ delete_pod web ∷ [])
unfolding delete_each recover request pure
delete_each_run = refl

abbrev after_drain : History
after_drain =
    wait_for_delete (web ∷ db ∷ []) false
    ∷ delete_pod db
    ∷ delete_pod web
    ∷ support_eviction "policy"
    ∷ list_pods "node0"
    ∷ []

drain_run : delete_or_evict_pods_simple without_evictions "node0" [] ≡ (ok tt, after_drain)
unfolding delete_or_evict_pods_simple delete_or_evict_pods delete_pods delete_each
    get_pods_for_deletion recover request pure ◌>>=◌
drain_run = refl

delete_or_evict_pods_simple_calls_example :
    after_drain ≡ after_deleting "node0" (filter deletable three_pods) []
delete_or_evict_pods_simple_calls_example =
    delete_or_evict_pods_simple_calls without_evictions "node0" three_pods [] after_drain refl refl
      drain_run
