-- ===== src/Upgrade/Agents/Pool.antt =====
-- The upgrade of one agent pool keeps the number of its machines.
use aks_engine.Common.{
  ℕ, zero, suc, ◌+◌, ◌≤◌, ◌<◌, ◌≡◌, refl, Bool, true, false, String, List, [], ◌∷◌, length, arith,
  Result, ◌==◌, nat_eq, insert, if◌then◌else◌, All, ◌≢◌,
}
use aks_engine.Cloud.{History, VirtualMachine}
use aks_engine.Cloud.Actions.{Action, pure, when◌take◌otherwise◌, ◌>>=◌}
use aks_engine.Cloud.Counts.{deleted, created, Quiet, Quiet-pure}
use aks_engine.Cloud.Rolling.{
  Rolling, Rolling-Quiet, Rolling-bind, Rolling-weaken, Rolling-returned, Returns, Returns-pure,
  Returns-bind, Returns-weaken, Rolling-create, Rolling-validate,
}
use aks_engine.Names.{NameError}
use aks_engine.Upgrade.Nodes.{UpgradeNode}
use aks_engine.Upgrade.Nodes.Effects.{NodeLaws}
use aks_engine.Upgrade.Indices.{get_available_index}
use aks_engine.Upgrade.Masters.{index_of}
use aks_engine.Upgrade.Agents.Counts.{olds, name_or_fail-Quiet}
use aks_engine.Upgrade.Agents.Rolling.{create_agents-Rolling, replace_agents-Rolling, start}
use aks_engine.Upgrade.Agents.{
  VmInfo, upgraded, VmMap, is_old, create_agents, replace_agents, check_upgraded, add_not_upgraded,
  Provisioning, good, failed, bad, provisioning, by_state, AgentPoolTopology, upgrade_pool,
  not_upgraded, ignored,
}

abbrev pub NotFailed : VirtualMachine → Type 0
NotFailed vm = provisioning vm ≢ failed

not_failed :
    {A : Type 0} (P : A → Type 0) (p : Provisioning) (a b c : A)
    → p ≢ failed
    → P a
    → P c
    → P (by_state p a b c)
not_failed P good a b c n q r = q
not_failed P failed a b c n q r = absurd (n refl)
not_failed P bad a b c n q r = r

olds-insert :
    (k : ℕ) (v : VmInfo) (m : VmMap)
    → olds (insert k v m) ≤ olds m + (if is_old v.status then 1 else 0)
unfolding olds
olds-insert k v [] = ground arith
olds-insert k v ((j, w) ∷ m) = ground (arith, olds-insert k v m)

olds-add_not_upgraded :
    (vms : List VirtualMachine) (m : VmMap) → olds (add_not_upgraded vms m) ≤ olds m + length vms
unfolding add_not_upgraded
olds-add_not_upgraded [] m = omega arith
olds-add_not_upgraded (vm ∷ vms) m =
    let v : VmInfo = record { name = vm.name; status = not_upgraded } in
    omega
      (arith, olds-add_not_upgraded vms (insert (index_of vm) v m), olds-insert (index_of vm) v m)

module _ (node : UpgradeNode) (laws : NodeLaws 1 node) (vm_name : ℕ → Result NameError String) where
  check_upgraded-Quiet :
      (vms : List VirtualMachine) (m : VmMap) (count : ℕ)
      → All NotFailed vms
      → Quiet (check_upgraded node vm_name vms m count)
  unfolding check_upgraded
  check_upgraded-Quiet [] m count a = Quiet-pure _
  check_upgraded-Quiet (vm ∷ vms) m count a =
      not_failed Quiet (provisioning vm) _ _ _ a.0 (check_upgraded-Quiet vms _ _ a.1)
        (check_upgraded-Quiet vms _ _ a.1)

  check_upgraded-Returns :
      (vms : List VirtualMachine) (m : VmMap) (count : ℕ)
      → All NotFailed vms
      → Returns
          (λ r. (olds r.0 ≤ olds m) × (r.1 ≤ count + length vms))
          (check_upgraded node vm_name vms m count)
  unfolding check_upgraded
  check_upgraded-Returns [] m count a = Returns-pure _ _ (ground arith)
  check_upgraded-Returns (vm ∷ vms) m count a =
      not_failed (Returns _) (provisioning vm) _ _ _ a.0
        (Returns-weaken _ _ _
          (λ r p.
            ground (
              arith,
              p,
              olds-insert (index_of vm) (record { name = vm.name; status = upgraded }) m,
            ))
          (check_upgraded-Returns vms _ _ a.1))
        (Returns-weaken _ _ _
          (λ r p.
            ground
              (arith, p, olds-insert (index_of vm) (record { name = vm.name; status = ignored }) m))
          (check_upgraded-Returns vms _ _ a.1))

  create_agents-Returns :
      (rounds : ℕ) (vms : VmMap) (names : List String)
      → Returns (λ r. olds r.0 ≤ olds vms) (create_agents node vm_name rounds vms names)
  unfolding create_agents
  create_agents-Returns zero vms names = Returns-pure _ _ (omega arith)
  create_agents-Returns (suc rounds) vms names =
      let index = get_available_index vms in
      Returns-bind _ _ _ λ name. Returns-bind _ _ _ λ _. Returns-bind _ _ _ λ _.
        Returns-weaken _ _ _
          (λ r le.
            ground (arith, le, olds-insert index (record { name = name; status = upgraded }) vms))
          (create_agents-Returns rounds _ _)

  create_agents-credit :
      (rounds : ℕ) (vms : VmMap) (names : List String)
      → 0 < rounds
      → Rolling 1 0 (create_agents node vm_name rounds vms names)
  unfolding create_agents
  create_agents-credit zero vms names lt = absurd (omega (arith, lt))
  create_agents-credit (suc rounds) vms names lt =
      Rolling-bind 1 1 0 _ _ (Rolling-Quiet 1 _ (omega arith) (name_or_fail-Quiet _)) λ _.
        Rolling-bind 1 0 0 _ _ (Rolling-create _ (laws.create-Effect _)) λ _.
          Rolling-bind 0 0 0 _ _ (Rolling-validate _ (laws.validate-Effect _))
            λ _. create_agents-Rolling node laws vm_name rounds _ _

  create_agents-kept :
      (rounds : ℕ) (vms : VmMap) (names : List String)
      → Rolling 1 1 (create_agents node vm_name rounds vms names)
  unfolding create_agents
  create_agents-kept zero vms names = Rolling-Quiet 1 _ (omega arith) (Quiet-pure _)
  create_agents-kept (suc rounds) vms names =
      Rolling-weaken 1 1 0 1 _ (omega arith) (omega arith)
        (create_agents-credit (suc rounds) vms names (omega arith))

  module _ (preserve : Bool) (copy : String → String → Action (Unit {0})) where
    -- The part of `upgrade_pool` behind the client, by the test whether nothing is to be upgraded.
    finish_pool :
        (to_upgrade : ℕ) (nothing : Bool) (rounds : ℕ) (vms : VmMap)
        → ((old new : String) → Quiet (copy old new))
        → (nothing ≡ false → 0 < rounds)
        → olds vms ≤ to_upgrade
        → Rolling 1 1 (
            create_agents node vm_name rounds vms [] >>= λ made.
            when nothing
            take pure tt
            otherwise replace_agents node vm_name preserve copy to_upgrade made.0 0 made.1)
    unfolding when◌take◌otherwise◌
    finish_pool to_upgrade true rounds vms q lt le =
        Rolling-bind 1 1 1 _ _ (create_agents-kept rounds vms [])
          λ made. Rolling-Quiet 1 _ (omega arith) (Quiet-pure _)
    finish_pool to_upgrade false rounds vms q lt le =
        Rolling-returned (λ r. olds r.0 ≤ olds vms) 1 0 1 _ _
          (create_agents-credit rounds vms [] (lt refl)) (create_agents-Returns rounds vms [])
          λ made p. Rolling-weaken (start (olds made.0)) 0 1 1 _ (omega arith) (omega arith) (
            replace_agents-Rolling node laws vm_name preserve copy to_upgrade q made.0 0 made.1
              (omega (arith, p, le)))

    upgrade_pool-Rolling :
        (agent_count : ℕ) (pool : AgentPoolTopology) (get_client : Action (Unit {0}))
        → Quiet get_client
        → ((old new : String) → Quiet (copy old new))
        → All NotFailed pool.upgraded_agent_vms
        → length pool.upgraded_agent_vms + length pool.agent_vms ≤ agent_count
        → Rolling 1 1 (
            upgrade_pool node vm_name preserve copy
              (length pool.agent_vms)
              agent_count
              pool
              get_client)
    unfolding upgrade_pool olds
    upgrade_pool-Rolling agent_count pool get_client quiet copy-Quiet nf le =
        Rolling-returned (λ r. (olds r.0 ≤ 0) × (r.1 ≤ 0 + length pool.upgraded_agent_vms)) 1 1 1 _
          _ (Rolling-Quiet 1 _ (omega arith) (check_upgraded-Quiet pool.upgraded_agent_vms [] 0 nf))
          (check_upgraded-Returns pool.upgraded_agent_vms [] 0 nf)
          λ checked p. Rolling-bind 1 1 1 _ _ (Rolling-Quiet 1 _ (omega arith) quiet) λ _.
            let old = olds-add_not_upgraded pool.agent_vms checked.0 in
            finish_pool (length pool.agent_vms) (length pool.agent_vms == 0) _ _ copy-Quiet
              (λ b. ground (arith, b, p, le)) (omega (arith, p, old))

    -- The upgrade of a pool never leaves fewer machines than it began with, at whatever point it
    -- stops: an extra machine is made before the first is deleted, and each machine but the last is
    -- made again. This holds if no upgraded machine of the pool is in a failed state (those are
    -- deleted first), and if the pool has no more machines than its profile's count.
    pub upgrade_pool_keeps :
        (agent_count : ℕ) (pool : AgentPoolTopology) (get_client : Action (Unit {0}))
        → Quiet get_client
        → ((old new : String) → Quiet (copy old new))
        → All NotFailed pool.upgraded_agent_vms
        → length pool.upgraded_agent_vms + length pool.agent_vms ≤ agent_count
        → (h : History)
        → let r =
            upgrade_pool node vm_name preserve copy
              (length pool.agent_vms)
              agent_count
              pool
              get_client
              h in
          deleted r.1 + created h ≤ created r.1 + deleted h
    upgrade_pool_keeps agent_count pool get_client quiet copy-Quiet nf le h =
        omega (
          arith,
          ((upgrade_pool-Rolling agent_count pool get_client quiet copy-Quiet nf le).at h).0,
        )
