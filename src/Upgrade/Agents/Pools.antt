-- ===== src/Upgrade/Agents/Pools.antt =====
-- The loop over the agent pools.
use aks_engine.Common.{
  ℕ, ◌+◌, ◌≤◌, ◌≡◌, ◌⊎◌, inl, inr, refl, ap, sym, ◌∙◌, true, Option, none, some, List, [], ◌∷◌,
  length, arith, All, ◌==◌, nat_eq,
}
use aks_engine.Cloud.{Env, History}
use aks_engine.Cloud.Actions.{pure, when◌take◌otherwise◌, when-true, ◌>>◌}
use aks_engine.Cloud.Counts.{deleted, created}
use aks_engine.Names.{get_k8s_vm_name}
use aks_engine.Cluster.{Properties, AgentPoolProfile}
use aks_engine.Upgrade.Nodes.{agent_node, get_kubernetes_client}
use aks_engine.Upgrade.Nodes.Effects.{agent_node-NodeLaws, get_kubernetes_client-Quiet}
use aks_engine.Upgrade.Copy.{copy_custom_properties_to_new_node}
use aks_engine.Upgrade.Copy.Quiet.{copy_custom-Quiet}
use aks_engine.Upgrade.Masters.{prepare_template}
use aks_engine.Upgrade.Agents.{
  AgentPoolTopology, preserves, upgrade_profile, profile_of, with_profile, upgrade_agent_pools,
}
use aks_engine.Upgrade.Agents.Pool.{NotFailed, upgrade_pool_keeps}

is_zero : (n : ℕ) → n ≡ 0 → (n == 0) ≡ true
is_zero n e = ground (arith, e)

module _ (env : Env) (properties : Properties) where
  -- At whatever point the upgrade of a pool stops, it has asked for the deletion of at most as
  -- many machines as it has asked for the deployment of, if no upgraded machine of the pool is in
  -- the failed state, and if the pool has no more machines than its profile's count.
  pub upgrade_profile_keeps :
      (pool : AgentPoolTopology) (profile : AgentPoolProfile) (h : History)
      → All NotFailed pool.upgraded_agent_vms
      → length pool.upgraded_agent_vms + length pool.agent_vms ≤ profile.count
      → deleted (upgrade_profile env properties pool profile h).1 + created h
        ≤ created (upgrade_profile env properties pool profile h).1 + deleted h
  unfolding upgrade_profile
  upgrade_profile_keeps pool profile h not_failed le =
      upgrade_pool_keeps (agent_node env properties pool.name)
        (agent_node-NodeLaws env properties pool.name) (get_k8s_vm_name properties profile)
        (preserves profile) (copy_custom_properties_to_new_node env) profile.count pool
        (get_kubernetes_client env properties) (get_kubernetes_client-Quiet env properties)
        (copy_custom-Quiet env) not_failed le h

  -- A pool of which no profile is known, whose profile's count is 0, or which has no machine to
  -- upgrade ends the loop over the pools: the pools behind it in the loop's order make no
  -- difference.
  pub upgrade_agent_pools_stop :
      (pool : AgentPoolTopology) (pools : List AgentPoolTopology)
      → ((profile : AgentPoolProfile)
          → profile_of env properties pool ≡ some profile
          → (profile.count ≡ 0) ⊎ (length pool.agent_vms ≡ 0))
      → upgrade_agent_pools env properties (pool ∷ pools)
        ≡ upgrade_agent_pools env properties (pool ∷ [])
  unfolding upgrade_agent_pools
  upgrade_agent_pools_stop pool pools stops =
      ap (λ k. prepare_template env >> k) (stop (profile_of env properties pool) stops)
    where
      stop :
          (found : Option AgentPoolProfile)
          → ((profile : AgentPoolProfile)
              → found ≡ some profile
              → (profile.count ≡ 0) ⊎ (length pool.agent_vms ≡ 0))
          → with_profile env properties pool (upgrade_agent_pools env properties pools) found
            ≡ with_profile env properties pool (upgrade_agent_pools env properties []) found
      stop none s = refl
      stop (some profile) s = elim (s profile refl) [
        | inl e ↦
            when-true _ _ _ (is_zero profile.count e)
            ∙ sym (when-true _ _ _ (is_zero profile.count e))
        | inr e ↦
            ap
              (λ k.
                when profile.count == 0
                take pure tt
                otherwise (upgrade_profile env properties pool profile >> k))
              (when-true _ _ _ (is_zero (length pool.agent_vms) e)
                ∙ sym (when-true _ _ _ (is_zero (length pool.agent_vms) e)))
      ]
