-- ===== src/Upgrade/Nodes/Effects.antt =====
-- What each operation of an `UpgradeNode` deletes and makes.
use aks_engine.Common.{
  ℕ, zero, suc, refl, String, Bool, true, false, Option, none, some, arith, is_empty,
}
use aks_engine.Cloud.{Env}
use aks_engine.Cloud.Actions.{pure}
use aks_engine.Cloud.Counts.{Quiet, quiet_rules, Quiet-recover, Quiet-when, Quiet-bind}
use aks_engine.Cloud.Effects.{
  Effect, Effect-bind, Effect-Quiet, Effect-when, Effect-create, Effect-ignore-fail, Effect-weaken,
  Effect-fail,
}
use aks_engine.Cluster.{Properties, MasterProfile}
use aks_engine.Operations.Counts.{safely_drain-Quiet, clean_delete-Effect}
use aks_engine.Upgrade.Nodes.{
  UpgradeNode, is_node_ready, poll_ready, poll, profile_or_panic, server_address, get_client,
  get_kubernetes_client, agent_delete_node, agent_create_node, agent_validate, master_delete_node,
  master_create_node, master_validate, agent_node, master_node,
}

-- The laws of the interface: deleting deletes one machine, creating makes one, and validating
-- neither, except that it may delete up to `top` machines where it fails.
pub record NodeLaws (top : ℕ) (node : UpgradeNode) : Type 0 where
  pub delete-Effect : (name : String) (drain : Bool) → Effect 1 0 1 (node.delete name drain)
  pub create-Effect : (index : ℕ) → Effect 0 1 0 (node.create index)
  pub validate-Effect : (name : String) → Effect 0 0 top (node.validate name)

module _ (env : Env) where
  poll_ready-Quiet : (rounds : ℕ) (name : String) → Quiet (poll_ready env rounds name)
  unfolding poll_ready
  poll_ready-Quiet zero name = search quiet_rules
  poll_ready-Quiet (suc rounds) name =
      let again = poll_ready-Quiet rounds name in
      Quiet-recover _ _ _ (search quiet_rules)
        (λ node.
          Quiet-when (is_node_ready node) (pure true) (poll_ready env rounds name)
            (search quiet_rules) again)
        (λ _. again)

  poll-Quiet : (name : String) → Quiet (poll env name)
  unfolding poll
  poll-Quiet name = search (quiet_rules, poll_ready-Quiet)

  get_client-Quiet : Quiet (get_client env)
  unfolding get_client
  get_client-Quiet = search quiet_rules

  profile_or_panic-Quiet : (m : Option MasterProfile) → Quiet (profile_or_panic m)
  profile_or_panic-Quiet none = search quiet_rules
  profile_or_panic-Quiet (some m) = search quiet_rules

  server_address-Quiet : (p : Properties) → Quiet (server_address env p)
  unfolding server_address
  server_address-Quiet p = search (quiet_rules, profile_or_panic-Quiet)

  pub get_kubernetes_client-Quiet : (p : Properties) → Quiet (get_kubernetes_client env p)
  unfolding get_kubernetes_client
  get_kubernetes_client-Quiet p = search (quiet_rules, server_address-Quiet, get_client-Quiet)

  ruleset node_quiet =
      (quiet_rules, poll-Quiet, get_client-Quiet, server_address-Quiet, safely_drain-Quiet)

  agent_delete-Effect :
      (p : Properties) (name : String) (drain : Bool)
      → Effect 1 0 1 (agent_delete_node env p name drain)
  unfolding agent_delete_node
  agent_delete-Effect p name drain =
      Effect-bind 0 0 0 1 0 1 1 _ _ (omega arith) (omega arith)
        (Effect-Quiet _ (server_address-Quiet p))
        λ _.
          Effect-bind 0 0 0 1 0 1 1 _ _ (omega arith) (omega arith)
            (Effect-Quiet _ (search (quiet_rules, get_client-Quiet)))
            λ _.
              Effect-bind 0 0 0 1 0 1 1 _ _ (omega arith) (omega arith)
                (Effect-Quiet _ (search (quiet_rules, safely_drain-Quiet)))
                λ _.
                  Effect-bind 1 0 1 0 0 0 1 _ _ (omega arith) (omega arith)
                    (clean_delete-Effect env name) λ _. Effect-Quiet _ (search quiet_rules)

  agent_create-Effect :
      (pool : String) (index : ℕ) → Effect 0 1 0 (agent_create_node env pool index)
  unfolding agent_create_node
  agent_create-Effect pool index =
      Effect-when 0 1 0 _ _ _ (Effect-create _ _ refl) (Effect-fail 0 1 0 _)

  agent_validate-Effect :
      (p : Properties) (name : String) → Effect 0 0 1 (agent_validate env p name)
  unfolding agent_validate
  agent_validate-Effect p name =
      Effect-when 0 0 1 _ _ _
        (Effect-weaken 0 0 0 1 _ (omega arith) (Effect-Quiet _ (search quiet_rules)))
        (Effect-bind 0 0 0 0 0 1 1 _ _ (omega arith) (omega arith)
          (Effect-Quiet _ (server_address-Quiet p))
          λ _.
            Effect-bind 0 0 0 0 0 1 1 _ _ (omega arith) (omega arith)
              (Effect-Quiet _ get_client-Quiet)
              λ _.
                Effect-bind 0 0 0 0 0 1 1 _ _ (omega arith) (omega arith)
                  (Effect-Quiet _ (poll-Quiet _))
                  λ r.
                    Effect-when 0 0 1 r _ _
                      (Effect-weaken 0 0 0 1 _ (omega arith) (Effect-Quiet _ (search quiet_rules)))
                      (Effect-ignore-fail 1 0 1 _ _ (agent_delete-Effect p name false)))

  master_validate-Quiet :
      (profile : Option MasterProfile) (name : String) → Quiet (master_validate env profile name)
  unfolding master_validate
  master_validate-Quiet none name = search quiet_rules
  master_validate-Quiet (some profile) name =
      Quiet-when (is_empty name) _ _ (search quiet_rules)
        (Quiet-bind _ _ get_client-Quiet λ _. Quiet-bind _ _ (poll-Quiet _) λ r. search quiet_rules)

  -- The operations on agents keep the laws of the interface `UpgradeNode`: deleting asks for one
  -- deletion, creating for one deployment, and validating for neither, except for at most one
  -- deletion where it fails.
  pub agent_node-NodeLaws : (p : Properties) (pool : String) → NodeLaws 1 (agent_node env p pool)
  agent_node-NodeLaws p pool = record {
    delete-Effect = agent_delete-Effect p;
    create-Effect = agent_create-Effect pool;
    validate-Effect = agent_validate-Effect p;
  }

  -- The operations on masters do too, and their validation never deletes.
  pub master_node-NodeLaws : (profile : Option MasterProfile) → NodeLaws 0 (master_node env profile)
  unfolding master_delete_node master_create_node
  master_node-NodeLaws profile = record {
    delete-Effect = λ name drain. clean_delete-Effect env name;
    create-Effect = λ i. Effect-create _ _ refl;
    validate-Effect = λ name. Effect-Quiet _ (master_validate-Quiet profile name);
  }
