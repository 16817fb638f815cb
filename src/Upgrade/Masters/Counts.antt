-- ===== src/Upgrade/Masters/Counts.antt =====
-- How many machines the upgrade of the masters deletes and makes.
use aks_engine.Common.{
  ℕ, zero, suc, ◌+◌, ◌-◌, ◌≤◌, ◌<◌, ◌≡◌, ltb, Bool, false, List, [], ◌∷◌, length, arith, err,
}
use mathlib.Core.Path.{subst}
use aks_engine.Cloud.{VirtualMachine, History}
use aks_engine.Cloud.Actions.{too_many_masters, fail, when◌take◌otherwise◌}
use aks_engine.Cloud.Counts.{deleted, created, quiet_rules}
use aks_engine.Cloud.Effects.{
  Effect, Effect-Quiet, Effect-sum, Effect-weaken, Effect-fail, Effect-when,
}
use aks_engine.Cloud.Rolling.{
  Rolling, Rolling-Quiet, Rolling-bind, Rolling-delete, Rolling-when, Rolling-fail, Rolling-create,
  Rolling-extra, Rolling-validate,
}
use aks_engine.Upgrade.Nodes.{UpgradeNode}
use aks_engine.Upgrade.Nodes.Effects.{NodeLaws}
use aks_engine.Upgrade.Masters.{
  mark_upgraded, replace_masters, create_missing_masters, upgrade_masters,
}

module _ (node : UpgradeNode) (laws : NodeLaws 0 node) where
  replace_masters-Effect :
      (vms : List VirtualMachine) (m : List (ℕ × Bool))
      → Effect (length vms) (length vms) (length vms) (replace_masters node vms m)
  unfolding replace_masters
  replace_masters-Effect [] m = Effect-Quiet _ (search quiet_rules)
  replace_masters-Effect (vm ∷ vms) m =
      let n = length vms in
      Effect-sum 1 0 1 n (suc n) n (suc n) (suc n) (suc n) _ _ (ground arith)
        (laws.delete-Effect vm.name false)
        λ _. Effect-sum 0 1 0 n n n n (suc n) n _ _ (ground arith) (laws.create-Effect _) λ _.
          Effect-sum 0 0 0 n n n n n n _ _ (ground arith) (laws.validate-Effect _)
            λ _. replace_masters-Effect vms _

  create_missing_masters-Effect :
      (rounds : ℕ) (m : List (ℕ × Bool)) → Effect 0 rounds 0 (create_missing_masters node rounds m)
  unfolding create_missing_masters
  create_missing_masters-Effect zero m = Effect-Quiet _ (search quiet_rules)
  create_missing_masters-Effect (suc rounds) m =
      Effect-sum 0 1 0 0 rounds 0 0 (suc rounds) 0 _ _ (ground arith) (laws.create-Effect _) λ _.
        Effect-sum 0 0 0 0 rounds 0 0 rounds 0 _ _ (ground arith) (laws.validate-Effect _)
          λ _. create_missing_masters-Effect rounds _

  replace_masters-Rolling :
      (vms : List VirtualMachine) (m : List (ℕ × Bool)) → Rolling 0 0 (replace_masters node vms m)
  unfolding replace_masters
  replace_masters-Rolling [] m = Rolling-Quiet 0 _ (omega arith) (search quiet_rules)
  replace_masters-Rolling (vm ∷ vms) m =
      Rolling-bind 0 1 0 _ _ (Rolling-delete _ (laws.delete-Effect vm.name false)) λ _.
        Rolling-bind 1 0 0 _ _ (Rolling-create _ (laws.create-Effect _)) λ _.
          Rolling-bind 0 0 0 _ _
            (Rolling-validate _ (Effect-weaken 0 0 0 1 _ (omega arith) (laws.validate-Effect _)))
            λ _. replace_masters-Rolling vms _

  create_missing_masters-Rolling :
      (rounds : ℕ) (m : List (ℕ × Bool)) → Rolling 0 0 (create_missing_masters node rounds m)
  unfolding create_missing_masters
  create_missing_masters-Rolling zero m = Rolling-Quiet 0 _ (omega arith) (search quiet_rules)
  create_missing_masters-Rolling (suc rounds) m =
      Rolling-bind 0 0 0 _ _ (Rolling-extra _ (laws.create-Effect _)) λ _.
        Rolling-bind 0 0 0 _ _
          (Rolling-validate _ (Effect-weaken 0 0 0 1 _ (omega arith) (laws.validate-Effect _)))
          λ _. create_missing_masters-Rolling rounds _

  -- More masters than expected are refused, before any call is made.
  pub upgrade_masters_refused :
      (expected : ℕ) (upgraded masters : List VirtualMachine) (h : History)
      → expected < length masters + length upgraded
      → upgrade_masters node expected upgraded masters h
        ≡ (err (too_many_masters (length masters + length upgraded) expected), h)
  unfolding upgrade_masters when◌take◌otherwise◌ fail
  upgrade_masters_refused expected upgraded masters h lt = ground (arith, lt)

  -- If no more masters than expected are in the cluster, a successful upgrade deletes as many
  -- masters as are not upgraded, and makes as many as bring the upgraded ones to the expected
  -- count; a failing one asks for no more. The node operations delete, make and validate as their
  -- laws say, and validating never deletes.
  pub upgrade_masters_counts :
      (expected : ℕ) (upgraded masters : List VirtualMachine)
      → length masters + length upgraded ≤ expected
      → Effect
          (length masters)
          (expected - length upgraded)
          (length masters)
          (upgrade_masters node expected upgraded masters)
  unfolding upgrade_masters
  upgrade_masters_counts expected upgraded masters le =
      let n = length masters in
      let missing = expected - (n + length upgraded) in
      subst (λ k. Effect n k n (upgrade_masters node expected upgraded masters)) (omega (arith, le))
        (Effect-when n (n + missing) n _ _ _ (Effect-fail n (n + missing) n _) (
          Effect-sum n n n 0 missing 0 n (n + missing) n _ _ (ground arith)
            (replace_masters-Effect masters _) (create_missing_masters-Effect missing)))

  -- At whatever point the upgrade of the masters stops, it has asked for at most one deletion
  -- more than for deployments, over any node operations of which deleting deletes one machine,
  -- creating makes one and validating does neither.
  pub upgrade_masters_rolling :
      (expected : ℕ) (upgraded masters : List VirtualMachine) (h : History)
      → deleted (upgrade_masters node expected upgraded masters h).1 + created h
        ≤ created (upgrade_masters node expected upgraded masters h).1 + deleted h + 1
  unfolding upgrade_masters
  upgrade_masters_rolling expected upgraded masters h =
      let missing = expected - (length masters + length upgraded) in
      omega (
        arith,
        ((Rolling-when 0 0 (ltb expected (length masters + length upgraded)) _ _
              (Rolling-fail 0 0 _ (omega arith))
              (Rolling-bind 0 0 0 _ _ (replace_masters-Rolling masters (mark_upgraded upgraded []))
                (create_missing_masters-Rolling missing))).at
            h).0,
      )
