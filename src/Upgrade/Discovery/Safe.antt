-- ===== src/Upgrade/Discovery/Safe.antt =====
-- Without force, only upgrades that the orchestrator profiles offer are begun.
use mathlib.Core.Path.{subst}
use aks_engine.Common.{
  String, ◌≡◌, refl, sym, ap, ◌∙◌, Bool, true, false, List, [], ◌∷◌, any, All, is_empty, Option,
  none, some, arith, Bool-cases, inl, inr, ◌==◌, string_eq, eq_iff, Result, ok, err,
}
use aks_engine.Versions.Semver.{Semver}
use aks_engine.Versions.Select.{kubernetes, is_supported_kubernetes_version}
use aks_engine.Orchestrators.{get_orchestrator_version_profile}
use aks_engine.OrchestratorData.{OrchestratorError, OrchestratorProfile, OrchestratorVersionProfile}
use aks_engine.Orchestrators.Upgrades.{newer}
use aks_engine.Orchestrators.Profiles.{IsUpgrade, get_orchestrator_version_profile-IsProfile}
use aks_engine.Cloud.{Env, History, VirtualMachine}
use aks_engine.Cloud.Actions.{
  Action, cannot_upgrade, pure, fail, when◌take◌otherwise◌, when-true, when-false, bind_succeeded,
  bind_ok, ◌>>=◌,
}
use aks_engine.Cluster.{Properties}
use aks_engine.Upgrade.Lower.{to_lower}
use aks_engine.Common.{contains}
use aks_engine.Upgrade.Discovery.{
  upgradable, offered, Options, Topology, sort_vm, visit_vm, visit_vms, tag_version, noted, belongs,
  get_node_version, version_from_api,
}

module _ (semver : Semver) where
  -- The version that the cluster is upgraded to may be used for new clusters, and is newer.
  abbrev pub Safe : Properties → String → Type 0
  Safe p current =
      (is_supported_kubernetes_version semver p.orchestrator_version false p.has_windows ≡ true)
      × (newer semver p.orchestrator_version current ≡ true)

  Safe-any :
      (p : Properties) (current : String) (ups : List OrchestratorProfile)
      → All (IsUpgrade semver p.has_windows current) ups
      → any (λ up. up.orchestrator_version == p.orchestrator_version) ups ≡ true
      → Safe p current
  Safe-any p current [] all e = cc e
  Safe-any p current (up ∷ ups) all e =
      elim (Bool-cases (up.orchestrator_version == p.orchestrator_version)) [
        | inl t ↦
            subst
              (λ v.
                (is_supported_kubernetes_version semver v false p.has_windows ≡ true)
                × (newer semver v current ≡ true))
              ((eq_iff up.orchestrator_version p.orchestrator_version).0 t) (all.0.1, all.0.2)
        | inr f ↦ Safe-any p current ups all.1 (ground (arith, e, f))
      ]

  offered-any :
      (current target : String) (r : Result OrchestratorError OrchestratorVersionProfile)
      (h h' : History)
      → offered semver current target r h ≡ (ok tt, h')
      → (profile : OrchestratorVersionProfile) × (r ≡ ok profile)
        × (any (λ up. up.orchestrator_version == target) profile.upgrades ≡ true)
  unfolding fail when◌take◌otherwise◌
  offered-any current target (err x) h h' e = cc e
  offered-any current target (ok profile) h h' e =
      elim (Bool-cases (any (λ up. up.orchestrator_version == target) profile.upgrades)) [
        | inl t ↦ (profile, refl, t)
        | inr f ↦ absurd (refused _ f e)
      ]
    where
      refused :
          (b : Bool)
          → b ≡ false
          → (when b take pure tt otherwise fail (cannot_upgrade current target)) h ≡ (ok tt, h')
          → ⊥
      refused true f e = cc f
      refused false f e = cc e

  -- Where `upgradable` has no error, the version that the cluster is upgraded to is supported for
  -- new clusters and newer than the version of the machine.
  pub upgradable-Safe :
      (p : Properties) (current : String) (h h' : History)
      → upgradable semver p current h ≡ (ok tt, h')
      → Safe p current
  unfolding upgradable
  upgradable-Safe p current h h' e =
      let asked : OrchestratorProfile = record {
        orchestrator_type = kubernetes;
        orchestrator_version = current;
      } in
      let (profile, made, listed) =
        offered-any current p.orchestrator_version
          (get_orchestrator_version_profile semver asked p.has_windows) h h' e in
      Safe-any p current profile.upgrades
        (get_orchestrator_version_profile-IsProfile semver asked p.has_windows profile refl made).2
        listed

  module _ (o : Options) (p : Properties) where
    -- A machine with another version than the cluster's, in a cluster that has its own masters.
    sort_vm-Safe :
        (vm : VirtualMachine) (current : String) (t t' : Topology) (h h' : History)
        → o.force ≡ false
        → p.has_hosted_master_profile ≡ false
        → is_empty current ≡ false
        → (current == p.orchestrator_version) ≡ false
        → sort_vm semver o p vm current t h ≡ (ok t', h')
        → Safe p current
    unfolding sort_vm
    sort_vm-Safe vm current t t' h h' unforced own full other e =
        let q =
          sym (
            ap (λ m. m h)
              (when-false _ _ _ unforced ∙ when-false _ _ _ full ∙ when-false _ _ _ other))
          ∙ e in
        let (_, h₁, checked, _) = bind_succeeded _ _ h h' t' q in
        upgradable-Safe p current h h₁ (sym (ap (λ m. m h) (when-false _ _ _ own)) ∙ checked)

    module _ (env : Env) (has_client : Bool) where
      -- What discovery has found of one machine: if it is one of the cluster's, with a tag that
      -- gives another version, then its upgrade is safe.
      abbrev pub Checked : VirtualMachine → Type 0
      Checked vm =
          (version : String)
          → contains vm.name o.name_suffix ≡ true
          → tag_version vm.orchestrator_tag ≡ some version
          → is_empty version ≡ false
          → (version == p.orchestrator_version) ≡ false
          → Safe p version

      belongs_mine :
          (vm : VirtualMachine) (h : History)
          → contains vm.name o.name_suffix ≡ true
          → belongs semver o vm.name h ≡ (ok true, h)
      unfolding belongs pure
      belongs_mine vm h mine = ap (λ m. m h) (when-true _ _ _ mine)

      tag_known :
          (vm : VirtualMachine) (version : String) (h : History)
          → tag_version vm.orchestrator_tag ≡ some version
          → get_node_version env has_client (to_lower vm.name) vm.orchestrator_tag true h
            ≡ (ok version, h)
      unfolding get_node_version pure
      tag_known vm version h tagged =
          let version_of : Option String → Action String = λ found. elim found [
            | some v ↦ pure v
            | none ↦ version_from_api env has_client (to_lower vm.name)
          ] in
          ap (λ found. version_of found h) tagged

      visit_vm-Checked :
          (vm : VirtualMachine) (t t' : Topology) (h h' : History)
          → o.force ≡ false
          → p.has_hosted_master_profile ≡ false
          → visit_vm semver env has_client o p vm t h ≡ (ok t', h')
          → Checked vm
      unfolding visit_vm
      visit_vm-Checked vm t t' h h' unforced own e version mine tagged full other =
          let asked = get_node_version env has_client (to_lower vm.name) vm.orchestrator_tag true in
          let sorted : String → Action Topology =
            λ v. sort_vm semver o p vm v (noted semver vm.availability_set_id t) in
          let visited : Bool → Action Topology =
            λ b. when b take asked >>= sorted otherwise pure t in
          sort_vm-Safe vm version (noted semver vm.availability_set_id t) t' h h' unforced own full
            other
            (sym (bind_ok asked sorted h h version (tag_known vm version h tagged))
              ∙ sym (ap (λ m. m h) (when-true true (asked >>= sorted) (pure t) refl))
              ∙ sym (bind_ok (belongs semver o vm.name) visited h h true (belongs_mine vm h mine))
              ∙ e)

      -- Without force, in a cluster with masters of its own, the loop over the machines succeeds
      -- only if, for each of them whose name contains the cluster's suffix and whose tag gives a
      -- version other than that of the upgrade, the version of the upgrade is newer and supported
      -- for new clusters.
      pub visit_vms-Checked :
          (vms : List VirtualMachine) (t t' : Topology) (h h' : History)
          → o.force ≡ false
          → p.has_hosted_master_profile ≡ false
          → visit_vms semver env has_client o p vms t h ≡ (ok t', h')
          → All Checked vms
      unfolding visit_vms
      visit_vms-Checked [] t t' h h' unforced own e = tt
      visit_vms-Checked (vm ∷ vms) t t' h h' unforced own e =
          let (t₁, h₁, first, rest) = bind_succeeded _ _ h h' t' e in
          (
            visit_vm-Checked vm t t₁ h h₁ unforced own first,
            visit_vms-Checked vms t₁ t' h₁ h' unforced own rest,
          )
