-- ===== src/Upgrade/Agents/Rolling.antt =====
-- The loops of the upgrade of an agent pool replace machines one at a time.
use mathlib.Core.Path.{subst}
use aks_engine.Common.{
  ℕ, zero, suc, ◌+◌, ◌≤◌, ◌<◌, ◌≡◌, refl, sym, Bool, true, false, String, List, [], ◌∷◌, arith,
  Result, nat_eq, if◌then◌else◌,
}
use aks_engine.Cloud.Actions.{Action, when◌take◌otherwise◌, when-false, ◌>>=◌}
use aks_engine.Cloud.Counts.{Quiet, quiet_rules, Quiet-pure}
use aks_engine.Cloud.Rolling.{
  Rolling, Rolling-Quiet, Rolling-bind, Rolling-delete, Rolling-weaken, Rolling-when,
  Rolling-create, Rolling-extra, Rolling-validate,
}
use aks_engine.Names.{NameError}
use aks_engine.Upgrade.Nodes.{UpgradeNode}
use aks_engine.Upgrade.Nodes.Effects.{NodeLaws}
use aks_engine.Upgrade.Agents.Counts.{olds, copy_properties-Quiet, name_or_fail-Quiet, is_not_last}
use aks_engine.Upgrade.Agents.{VmMap, is_old, create_agents, replace_agents, create_again}

-- Whether a machine may be missing before a loop over as many old machines.
abbrev pub start : ℕ → ℕ
start zero = 1
start (suc n) = 0

module _ (node : UpgradeNode) (laws : NodeLaws 1 node) (vm_name : ℕ → Result NameError String) where
  pub create_agents-Rolling :
      (rounds : ℕ) (vms : VmMap) (names : List String)
      → Rolling 0 0 (create_agents node vm_name rounds vms names)
  unfolding create_agents
  create_agents-Rolling zero vms names = Rolling-Quiet 0 _ (omega arith) (search quiet_rules)
  create_agents-Rolling (suc rounds) vms names =
      Rolling-bind 0 0 0 _ _ (Rolling-Quiet 0 _ (omega arith) (name_or_fail-Quiet _)) λ _.
        Rolling-bind 0 0 0 _ _ (Rolling-extra _ (laws.create-Effect _)) λ _.
          Rolling-bind 0 0 0 _ _ (Rolling-validate _ (laws.validate-Effect _))
            λ _. create_agents-Rolling rounds _ _

  module _ (preserve : Bool) (copy : String → String → Action (Unit {0})) (to_upgrade : ℕ) where
    create_again-Rolling :
        (index : ℕ) (name : String) (done : ℕ) (names : List String)
        → done + 1 < to_upgrade
        → Rolling 1 0 (create_again node vm_name preserve copy to_upgrade index name done names)
    create_again-Rolling index name done names lt =
        subst (Rolling 1 0) (sym (when-false _ _ _ (is_not_last done to_upgrade lt))) (
          Rolling-bind 1 0 0 _ _ (Rolling-create _ (laws.create-Effect index)) λ _.
            Rolling-bind 0 0 0 _ _ (Rolling-validate _ (laws.validate-Effect name))
              λ _. Rolling-Quiet 0 _ (omega arith) (Quiet-pure _))

    create_then-Rolling :
        (index : ℕ) (name : String) (done n : ℕ) (names : List String)
        (g : List String → Action (Unit {0}))
        → done + 1 + n ≤ to_upgrade
        → ((names' : List String) → Rolling (start n) 1 (g names'))
        → Rolling 1 1
            (create_again node vm_name preserve copy to_upgrade index name done names >>= g)
    create_then-Rolling index name done zero names g le q =
        Rolling-bind 1 1 1 _ _
          (Rolling-when 1 1 _ _ _ (Rolling-Quiet 1 _ (omega arith) (Quiet-pure _)) (
            Rolling-weaken 1 1 0 1 _ (omega arith) (omega arith) (
              Rolling-bind 1 0 0 _ _ (Rolling-create _ (laws.create-Effect index)) λ _.
                Rolling-bind 0 0 0 _ _ (Rolling-validate _ (laws.validate-Effect name))
                  λ _. Rolling-Quiet 0 _ (omega arith) (Quiet-pure _))))
          q
    create_then-Rolling index name done (suc n) names g le q =
        Rolling-bind 1 0 1 _ _ (create_again-Rolling index name done names (omega (arith, le))) q

    Rolling-round :
        (b : Bool) (n : ℕ) (m k : Action (Unit {0}))
        → (b ≡ true → Rolling 0 1 m)
        → (b ≡ false → Rolling (start n) 1 k)
        → Rolling (start (if b then suc n else n)) 1 (when b take m otherwise k)
    unfolding when◌take◌otherwise◌
    Rolling-round true n m k p q = p refl
    Rolling-round false n m k p q = q refl

    pub replace_agents-Rolling :
        (copy-Quiet : (old new : String) → Quiet (copy old new)) (vms : VmMap) (done : ℕ)
        (names : List String)
        → done + olds vms ≤ to_upgrade
        → Rolling
            (start (olds vms))
            1
            (replace_agents node vm_name preserve copy to_upgrade vms done names)
    unfolding olds replace_agents
    replace_agents-Rolling q [] done names e = Rolling-Quiet 1 _ (omega arith) (Quiet-pure _)
    replace_agents-Rolling q ((index, vm) ∷ rest) done names e =
        Rolling-round (is_old vm.status) (olds rest) _ _
          (λ b.
            Rolling-bind 0 0 1 _ _
              (Rolling-Quiet 0 _ (omega arith)
                (copy_properties-Quiet node laws vm_name preserve copy to_upgrade q vm.name names))
              λ created'.
                Rolling-bind 0 1 1 _ _ (Rolling-delete _ (laws.delete-Effect vm.name true)) λ _.
                  Rolling-bind 1 1 1 _ _
                    (Rolling-Quiet 1 _ (omega arith) (name_or_fail-Quiet (vm_name index)))
                    λ name.
                      create_then-Rolling index name done (olds rest) created' _
                        (ground (arith, e, b))
                        (λ names'.
                          replace_agents-Rolling q rest (done + 1) names' (ground (arith, e, b))))
          (λ b. replace_agents-Rolling q rest done names (ground (arith, e, b)))
