-- ===== src/Upgrade/Autoscaler.antt =====
-- pkg/operations/kubernetesupgrade/upgradecluster.go: the whole upgrade of a cluster, during which
-- the cluster's autoscaler is paused.
pub mod Resumed
use aks_engine.Common.{
  ℕ, zero, suc, ◌≡◌, refl, String, Bool, true, false, Option, none, some, List, [], ◌∷◌, Result, ok,
  err, if◌then◌else◌,
}
use aks_engine.Versions.Semver.{Semver}
use aks_engine.Cloud.{Env, Call, kube_client, get_autoscaler, update_autoscaler}
use aks_engine.Cloud.Actions.{
  Failure, no_client, Action, pure, fail, request, when◌take◌otherwise◌, recover, ignore, and_then,
  ◌>>=◌, ◌>>◌,
}
use aks_engine.Cluster.{Properties}
use aks_engine.Upgrade.Agents.{AgentPoolTopology}
use aks_engine.Upgrade.Discovery.{Options, Topology, get_cluster_node_status}
use aks_engine.Upgrade.Run.{ClusterTopology, run_upgrade}

abbrev pub autoscaler_retries : ℕ
autoscaler_retries = 10

-- `SetClusterAutoscalerReplicaCount`, by the attempts left, with the error of the last attempt.
module _ (env : Env) (replica_count : ℕ) where
  abbrev pub attempt : Action ℕ
  attempt = do
    count ← request get_autoscaler env.autoscaler_replicas
    request (update_autoscaler replica_count) env.answer
    pure count

  unfoldable pub attempts : ℕ → Failure → Action ℕ
  attempts zero last = fail last
  attempts (suc left) last = recover attempt pure (attempts left)

  unfoldable pub set_cluster_autoscaler_replica_count : Bool → Action ℕ
  set_cluster_autoscaler_replica_count has_client =
      when has_client take attempts autoscaler_retries no_client otherwise fail no_client

-- A deferred call, whose own error is only logged.
abbrev pub deferred : {A B : Type 0} → Action A → Action B → Action A
deferred m k = recover m (λ a. ignore k >>= λ _. pure a) (λ e. ignore k >>= λ _. fail e)

module _ (env : Env) where
  -- Without `force` a failure to pause ends the upgrade.
  unfoldable pub while_paused : Bool → Bool → Action (Unit {0}) → Action (Unit {0})
  while_paused force has_client run =
      recover (set_cluster_autoscaler_replica_count env 0 has_client)
        (λ count. deferred run (set_cluster_autoscaler_replica_count env count has_client))
        (λ e. when force take run otherwise fail e)

  -- A failure to get a client is only logged; the upgrade goes on without one.
  abbrev client_or_none : Bool → Action Bool
  client_or_none with_az =
      when with_az
      take recover (request kube_client env.answer) (λ _. pure true) (λ _. pure false)
      otherwise pure false

abbrev pools_of : List (String × AgentPoolTopology) → List AgentPoolTopology
pools_of [] = []
pools_of ((identifier, pool) ∷ rest) = pool ∷ pools_of rest

abbrev to_cluster : Properties → Topology → ClusterTopology
to_cluster p t = record {
  properties = record p { agent_pool_profiles = t.profiles };
  master_vms = t.master_vms;
  upgraded_master_vms = t.upgraded_master_vms;
  agent_pool_scale_sets_to_upgrade = t.scale_sets;
  agent_pools = pools_of t.agent_pools;
}

abbrev nothing_found : Properties → Topology
nothing_found p = record {
  profiles = p.agent_pool_profiles;
  scale_sets = [];
  agent_pools = [];
  master_vms = [];
  upgraded_master_vms = [];
  availability_set_ids = [];
}

module _ (semver : Semver) (env : Env) where
  -- `autoscaler` is whether the cluster has the add-on; `with_az` is whether a client of Azure is
  -- passed in.
  unfoldable pub upgrade_cluster : Bool → Bool → Options → Properties → Action (Unit {0})
  upgrade_cluster with_az autoscaler o p = do
    has_client ← client_or_none env with_az
    t ← get_cluster_node_status semver env has_client o p (nothing_found p)
    when autoscaler
        take while_paused env o.force has_client (run_upgrade env (to_cluster p t))
        otherwise run_upgrade env (to_cluster p t)
