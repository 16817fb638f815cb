-- ===== src/Upgrade/Run.antt =====
-- pkg/operations/kubernetesupgrade/upgrader.go: `RunUpgrade`.
use aks_engine.Common.{◌+◌, ◌<◌, ◌≡◌, sym, ap, ◌∙◌, some, List, length, ok, err}
use mathlib.Core.Path.{subst}
use aks_engine.Cloud.{Env, VirtualMachine, History}
use aks_engine.Cloud.Actions.{too_many_masters, Action, pure, with_history, bind_ok, bind_err, ◌>>◌}
use aks_engine.Cluster.{Properties, MasterProfile}
use aks_engine.Upgrade.Nodes.{master_node}
use aks_engine.Upgrade.Nodes.Effects.{master_node-NodeLaws}
use aks_engine.Upgrade.Masters.{lift, prepare_template, upgrade_master_nodes}
use aks_engine.Upgrade.Masters.Counts.{upgrade_masters_refused}
use aks_engine.Upgrade.ScaleSets.{AgentPoolScaleSet, upgrade_agent_scale_sets}
use aks_engine.Upgrade.Agents.{AgentPoolTopology, upgrade_agent_pools}

-- What `ClusterTopology` lists for an upgrade, the pools in the order in which Go ranges over them.
pub record ClusterTopology : Type 0 where
  pub properties : Properties
  pub master_vms : List VirtualMachine
  pub upgraded_master_vms : List VirtualMachine
  pub agent_pool_scale_sets_to_upgrade : List AgentPoolScaleSet
  pub agent_pools : List AgentPoolTopology

module _ (env : Env) where
  -- The masters, then the scale sets, then the pools of single machines; an error ends the run.
  unfoldable pub run_upgrade : ClusterTopology → Action (Unit {0})
  run_upgrade cluster = do
    upgrade_master_nodes env cluster.properties.master_profile cluster.upgraded_master_vms
        cluster.master_vms
    upgrade_agent_scale_sets env cluster.properties cluster.agent_pool_scale_sets_to_upgrade
    upgrade_agent_pools env cluster.properties cluster.agent_pools

  prepare_template_ok :
      (h : History) → env.template_result h ≡ ok tt → prepare_template env h ≡ (ok tt, h)
  unfolding with_history pure
  prepare_template_ok h made = ap (λ r. lift r h) made

  masters_refused :
      (profile : MasterProfile) (upgraded masters : List VirtualMachine) (h : History)
      → env.template_result h ≡ ok tt
      → profile.count < length masters + length upgraded
      → upgrade_master_nodes env (some profile) upgraded masters h
        ≡ (err (too_many_masters (length masters + length upgraded) profile.count), h)
  unfolding upgrade_master_nodes
  masters_refused profile upgraded masters h made lt =
      bind_ok _ _ h h tt (prepare_template_ok h made)
      ∙ bind_err _ _ h h _ (
          upgrade_masters_refused (master_node env (some profile))
            (master_node-NodeLaws env (some profile)) profile.count upgraded masters h lt)

  -- A cluster with more masters than its profile says is left alone: if the template can be
  -- generated, the whole run ends with that error and has made no call.
  pub run_upgrade_refused :
      (cluster : ClusterTopology) (profile : MasterProfile) (h : History)
      → cluster.properties.master_profile ≡ some profile
      → env.template_result h ≡ ok tt
      → profile.count < length cluster.master_vms + length cluster.upgraded_master_vms
      → run_upgrade cluster h ≡ (
        err (
            too_many_masters
              (length cluster.master_vms + length cluster.upgraded_master_vms)
              profile.count),
        h,
      )
  unfolding run_upgrade
  run_upgrade_refused cluster profile h has made lt = bind_err _ _ h h _ (
      subst
        (λ found.
          upgrade_master_nodes env found cluster.upgraded_master_vms cluster.master_vms h ≡ (
            err (
                too_many_masters (length cluster.master_vms + length cluster.upgraded_master_vms)
                  profile.count),
            h,
          ))
        (sym has)
        (masters_refused profile cluster.upgraded_master_vms cluster.master_vms h made lt))
