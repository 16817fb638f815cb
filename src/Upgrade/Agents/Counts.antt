-- ===== src/Upgrade/Agents/Counts.antt =====
-- How many machines the upgrade of an agent pool deletes and makes.
use mathlib.Core.Path.{subst}
use aks_engine.Common.{
  ℕ, zero, suc, ◌+◌, ◌-◌, ◌<◌, ◌≡◌, refl, sym, Bool, true, false, String, List, [], ◌∷◌, arith,
  Result, ok, err, ◌==◌, nat_eq, if◌then◌else◌,
}
use aks_engine.Cloud.Actions.{Action, when◌take◌otherwise◌, when-true, when-false, ◌>>=◌}
use aks_engine.Cloud.Counts.{Quiet, quiet_rules, Quiet-pure}
use aks_engine.Cloud.Effects.{Effect, Effect-Quiet, Effect-sum, Effect-weaken}
use aks_engine.Names.{NameError}
use aks_engine.Upgrade.Nodes.{UpgradeNode}
use aks_engine.Upgrade.Nodes.Effects.{NodeLaws}
use aks_engine.Upgrade.Agents.{
  VmMap, is_old, name_or_fail, create_agents, replace_agents, copy_properties, create_again,
}

-- The machines of the map that are to be replaced.
unfoldable pub olds : VmMap → ℕ
olds [] = 0
olds ((index, vm) ∷ rest) = if is_old vm.status then suc (olds rest) else olds rest

pub name_or_fail-Quiet : (r : Result NameError String) → Quiet (name_or_fail r)
name_or_fail-Quiet (ok name) = search quiet_rules
name_or_fail-Quiet (err e) = search quiet_rules

is_last : (done to_upgrade : ℕ) → done + 1 ≡ to_upgrade → (done == to_upgrade - 1) ≡ true
is_last done to_upgrade e = ground (arith, e)

pub is_not_last : (done to_upgrade : ℕ) → done + 1 < to_upgrade → (done == to_upgrade - 1) ≡ false
is_not_last done to_upgrade lt = ground (arith, lt)

module _ (node : UpgradeNode) (laws : NodeLaws 1 node) (vm_name : ℕ → Result NameError String) where
  -- The loop that creates machines makes exactly as many as are missing, and deletes none, if it
  -- succeeds; if it fails it asks for no more deployments and for at most one deletion. The node
  -- operations keep their laws.
  pub create_agents_counts :
      (rounds : ℕ) (vms : VmMap) (names : List String)
      → Effect 0 rounds 1 (create_agents node vm_name rounds vms names)
  unfolding create_agents
  create_agents_counts zero vms names =
      Effect-weaken 0 0 0 1 _ (omega arith) (Effect-Quiet _ (search quiet_rules))
  create_agents_counts (suc rounds) vms names =
      Effect-sum 0 0 0 0 (suc rounds) 1 0 (suc rounds) 1 _ _ (ground arith)
        (Effect-Quiet _ (name_or_fail-Quiet _))
        λ _.
          Effect-sum 0 1 0 0 rounds 1 0 (suc rounds) 1 _ _ (ground arith) (laws.create-Effect _)
            λ _.
              Effect-sum 0 0 1 0 rounds 1 0 rounds 1 _ _ (ground arith) (laws.validate-Effect _)
                λ _. create_agents_counts rounds _ _

  module _ (preserve : Bool) (copy : String → String → Action (Unit {0})) (to_upgrade : ℕ) where
    pub copy_properties-Quiet :
        ((old new : String) → Quiet (copy old new))
        → (old : String) (names : List String)
        → Quiet (copy_properties node vm_name preserve copy to_upgrade old names)
    copy_properties-Quiet q old [] = search quiet_rules
    copy_properties-Quiet q old (new ∷ names) = search (quiet_rules, q)

    create_again-none :
        (index : ℕ) (name : String) (done : ℕ) (names : List String)
        → done + 1 ≡ to_upgrade
        → Effect 0 0 0 (create_again node vm_name preserve copy to_upgrade index name done names)
    create_again-none index name done names e =
        subst (Effect 0 0 0) (sym (when-true _ _ _ (is_last done to_upgrade e)))
          (Effect-Quiet _ (Quiet-pure names))

    create_again-one :
        (index : ℕ) (name : String) (done : ℕ) (names : List String)
        → done + 1 < to_upgrade
        → Effect 0 1 1 (create_again node vm_name preserve copy to_upgrade index name done names)
    create_again-one index name done names lt =
        subst (Effect 0 1 1) (sym (when-false _ _ _ (is_not_last done to_upgrade lt))) (
          Effect-sum 0 1 0 0 0 1 0 1 1 _ _ (ground arith) (laws.create-Effect index) λ _.
            Effect-sum 0 0 1 0 0 1 0 0 1 _ _ (ground arith) (laws.validate-Effect name)
              λ _. Effect-weaken 0 0 0 1 _ (omega arith) (Effect-Quiet _ (Quiet-pure _)))

    -- The part of a round behind the deletion, where `n` machines are left.
    create_then-Effect :
        (index : ℕ) (name : String) (done n : ℕ) (names : List String)
        (g : List String → Action (Unit {0}))
        → done + 1 + n ≡ to_upgrade
        → ((names' : List String) → Effect n (n - 1) n (g names'))
        → Effect n n n
            (create_again node vm_name preserve copy to_upgrade index name done names >>= g)
    create_then-Effect index name done zero names g e q =
        Effect-sum 0 0 0 0 0 0 0 0 0 _ _ (ground arith)
          (create_again-none index name done names (omega (arith, e))) q
    create_then-Effect index name done (suc n) names g e q =
        Effect-sum 0 1 1 (suc n) n (suc n) (suc n) (suc n) (suc n) _ _ (ground arith)
          (create_again-one index name done names (omega (arith, e)))
          (λ names'. subst (λ k. Effect (suc n) k (suc n) (g names')) (omega arith) (q names'))

    replace_round :
        (b : Bool) (n : ℕ) (m k : Action (Unit {0}))
        → (b ≡ true → Effect (suc n) n (suc n) m)
        → (b ≡ false → Effect n (n - 1) n k)
        → Effect
            (if b then suc n else n)
            ((if b then suc n else n) - 1)
            (if b then suc n else n)
            (when b take m otherwise k)
    unfolding when◌take◌otherwise◌
    replace_round true n m k p q = subst (λ j. Effect (suc n) j (suc n) m) (omega arith) (p refl)
    replace_round false n m k p q = q refl

    -- The loop over a pool's machines, started with as many machines to replace as the map has,
    -- deletes each of them if it succeeds and makes one fewer; if it fails it asks for no more.
    -- The node operations keep their laws, and copying properties deletes and makes no machine.
    pub replace_agents_counts :
        (copy-Quiet : (old new : String) → Quiet (copy old new)) (vms : VmMap) (done : ℕ)
        (names : List String)
        → done + olds vms ≡ to_upgrade
        → Effect
            (olds vms)
            (olds vms - 1)
            (olds vms)
            (replace_agents node vm_name preserve copy to_upgrade vms done names)
    unfolding olds replace_agents
    replace_agents_counts q [] done names e = Effect-Quiet _ (Quiet-pure _)
    replace_agents_counts q ((index, vm) ∷ rest) done names e =
        let n = olds rest in
        replace_round (is_old vm.status) n _ _
          (λ b.
            Effect-sum 0 0 0 (suc n) n (suc n) (suc n) n (suc n) _ _ (ground arith)
              (Effect-Quiet _ (copy_properties-Quiet q vm.name names))
              λ created'.
                Effect-sum 1 0 1 n n n (suc n) n (suc n) _ _ (ground arith)
                  (laws.delete-Effect vm.name true)
                  λ _.
                    Effect-sum 0 0 0 n n n n n n _ _ (ground arith)
                      (Effect-Quiet _ (name_or_fail-Quiet (vm_name index)))
                      λ name.
                        create_then-Effect index name done n created' _ (ground (arith, e, b))
                          (λ names'.
                            replace_agents_counts q rest (done + 1) names' (ground (arith, e, b))))
          (λ b. replace_agents_counts q rest done names (ground (arith, e, b)))
