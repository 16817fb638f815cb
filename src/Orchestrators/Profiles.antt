-- ===== src/Orchestrators/Profiles.antt =====
-- What the profiles of pkg/api/orchestrators.go say.
use aks_engine.Common.{
  String, ◌≡◌, refl, sym, ◌∙◌, Bool, true, false, List, [], ◌∷◌, map, arith, Bool-cases, inl, inr,
  string_eq, eq_iff, elem, All, is_empty, Result, ok, err, ◌>>=◌,
}
use aks_engine.Versions.Semver.{Semver}
use aks_engine.Versions.Select.{
  kubernetes, get_all_supported_kubernetes_versions, is_supported_kubernetes_version,
}
use aks_engine.Versions.Supported.{
  elem-get_all_supported, is_supported_kubernetes_version-eq-lookup,
}
use aks_engine.Orchestrators.{
  get_kubernetes_available_upgrade_versions, kubernetes_upgrades, kubernetes_profile,
  kubernetes_profiles, kubernetes_info, func_map, get_orchestrator_version_profile_list,
  get_orchestrator_version_profile, only, is_version_supported,
}
use aks_engine.OrchestratorData.{
  OrchestratorProfile, OrchestratorVersionProfile, validate, kubernetes_orchestrator, equal_fold,
}
use aks_engine.Orchestrators.Upgrades.{newer, available_upgrades_newer}

-- To take a successful bind apart.
ok_bind {ℓ κ ι} :
    {E : Type ℓ} {A : Type κ} {B : Type ι} (m : Result E A) (f : A → Result E B) {b : B}
    → (m >>= f) ≡ ok b
    → (a : A) × (m ≡ ok a) × (f a ≡ ok b)
ok_bind (ok a) f h = (a, refl, h)
ok_bind (err e) f h = cc

module _ (semver : Semver) where
  -- An upgrade leads to a Kubernetes version that new clusters may use, and that is newer.
  abbrev pub IsUpgrade : Bool → String → OrchestratorProfile → Type 0
  IsUpgrade has_windows version u =
      (u.orchestrator_type ≡ kubernetes)
      × (is_supported_kubernetes_version semver u.orchestrator_version false has_windows ≡ true)
      × (newer semver u.orchestrator_version version ≡ true)

  All-IsUpgrade :
      (has_windows : Bool) (version : String) (vs : List String)
      → ((v : String)
          → elem v vs ≡ true
          → (elem v (get_all_supported_kubernetes_versions semver false has_windows) ≡ true)
            × (newer semver v version ≡ true))
      → All (IsUpgrade has_windows version) (map kubernetes_orchestrator vs)
  All-IsUpgrade has_windows version [] h = tt
  All-IsUpgrade has_windows version (v ∷ vs) h =
      let (supported, above) = h v (ground (arith, eq_iff v v)) in
      (
        (
          refl,
          is_supported_kubernetes_version-eq-lookup semver v false has_windows
              ∙ sym (elem-get_all_supported semver v false has_windows)
              ∙ supported,
          above,
        ),
        All-IsUpgrade has_windows version vs (λ w m. h w (ground (arith, m))),
      )

  kubernetes_upgrades-All :
      (version : String) (has_windows : Bool) (us : List OrchestratorProfile)
      → kubernetes_upgrades semver version has_windows ≡ ok us
      → All (IsUpgrade has_windows version) us
  unfolding kubernetes_upgrades
  kubernetes_upgrades-All version has_windows us h =
      let supported = get_all_supported_kubernetes_versions semver false has_windows in
      let (vs, found, made) =
        ok_bind (get_kubernetes_available_upgrade_versions semver version supported)
          (λ vs. ok (map kubernetes_orchestrator vs)) h in
      let q : map kubernetes_orchestrator vs ≡ us = ground (arith, made) in
      rw (← q) (
        All-IsUpgrade has_windows version vs
          (λ v m. available_upgrades_newer semver version supported vs v found m))

  -- What one Kubernetes profile says of the version it is for.
  abbrev pub IsProfile : Bool → String → OrchestratorVersionProfile → Type 0
  IsProfile has_windows version p =
      (p.orchestrator_type ≡ kubernetes)
      × (p.orchestrator_version ≡ version)
      × All (IsUpgrade has_windows version) p.upgrades

  kubernetes_profile-IsProfile :
      (has_windows : Bool) (version : String) (p : OrchestratorVersionProfile)
      → kubernetes_profile semver has_windows version ≡ ok p
      → IsProfile has_windows version p
  unfolding kubernetes_profile
  kubernetes_profile-IsProfile has_windows version p h =
      let (us, found, made) = ok_bind (kubernetes_upgrades semver version has_windows) _ h in
      let same : us ≡ p.upgrades = ground (arith, made) in
      (
        ground (arith, made),
        ground (arith, made),
        rw (← same) (kubernetes_upgrades-All version has_windows us found),
      )

  -- The profiles stand one for one for the versions.
  abbrev pub AreProfiles : Bool → List String → List OrchestratorVersionProfile → Type 0
  AreProfiles has_windows [] [] = Unit
  AreProfiles has_windows (v ∷ vs) (p ∷ ps) =
      IsProfile has_windows v p × AreProfiles has_windows vs ps
  AreProfiles has_windows _ _ = ⊥

  kubernetes_profiles-AreProfiles :
      (has_windows : Bool) (vs : List String) (ps : List OrchestratorVersionProfile)
      → kubernetes_profiles semver has_windows vs ≡ ok ps
      → AreProfiles has_windows vs ps
  unfolding kubernetes_profiles
  kubernetes_profiles-AreProfiles has_windows [] [] h = tt
  kubernetes_profiles-AreProfiles has_windows [] (p ∷ ps) h = cc
  kubernetes_profiles-AreProfiles has_windows (v ∷ vs) ps h =
      let (p, found, rest) = ok_bind (kubernetes_profile semver has_windows v) _ h in
      let (qs, founds, made) = ok_bind (kubernetes_profiles semver has_windows vs) _ rest in
      let same : p ∷ qs ≡ ps = ground (arith, made) in
      rw (← same) (
        kubernetes_profile-IsProfile has_windows v p found,
        kubernetes_profiles-AreProfiles has_windows vs qs founds,
      )

  -- Asked for Kubernetes in any spelling of the letters' case and for no version, the list has one
  -- profile for each version that new clusters may use, in order, and each upgrade in it leads to a
  -- newer version that new clusters may use.
  pub get_orchestrator_version_profile_list-kubernetes :
      (orchestrator : String) (windows : Bool) (ps : List OrchestratorVersionProfile)
      → equal_fold orchestrator kubernetes ≡ true
      → get_orchestrator_version_profile_list semver orchestrator "" windows ≡ ok ps
      → AreProfiles windows (get_all_supported_kubernetes_versions semver false windows) ps
  unfolding get_orchestrator_version_profile_list validate kubernetes_info
  get_orchestrator_version_profile_list-kubernetes orchestrator windows ps named h =
      kubernetes_profiles-AreProfiles windows
        (get_all_supported_kubernetes_versions semver false windows) ps (ground (arith, named, h))

  kubernetes_profiles_one :
      (version : String) (has_windows : Bool) (p : OrchestratorVersionProfile)
      → (kubernetes_profiles semver has_windows (version ∷ []) >>= only semver) ≡ ok p
      → IsProfile has_windows version p
  kubernetes_profiles_one version has_windows p h =
      let (ps, found, single) =
        ok_bind (kubernetes_profiles semver has_windows (version ∷ [])) (only semver) h in
      one ps (kubernetes_profiles-AreProfiles has_windows (version ∷ []) ps found) single
    where
      one :
          (ps : List OrchestratorVersionProfile)
          → AreProfiles has_windows (version ∷ []) ps
          → only semver ps ≡ ok p
          → IsProfile has_windows version p
      one [] are e = elim are [ ]
      one (q ∷ []) are e = let same : q ≡ p = ground (arith, e) in rw (← same) are.0
      one (q ∷ (r ∷ rs)) are e = cc

  kubernetes_info_one :
      (orch : OrchestratorProfile) (has_windows : Bool) (p : OrchestratorVersionProfile)
      → is_empty orch.orchestrator_version ≡ false
      → (kubernetes_info semver orch has_windows >>= only semver) ≡ ok p
      → IsProfile has_windows orch.orchestrator_version p
  unfolding kubernetes_info
  kubernetes_info_one orch has_windows p full h =
      elim (Bool-cases (is_version_supported semver orch)) [
        | inl t ↦
            kubernetes_profiles_one orch.orchestrator_version has_windows p
              (ground (arith, full, t, h))
        | inr f ↦ absurd (ground (arith, full, f, h))
      ]

  -- A profile that `GetOrchestratorVersionProfile` returns for Kubernetes is for the version that
  -- was asked for, and each of its upgrades is a newer version that new clusters may use.
  pub get_orchestrator_version_profile-IsProfile :
      (orch : OrchestratorProfile) (has_windows : Bool) (p : OrchestratorVersionProfile)
      → orch.orchestrator_type ≡ kubernetes
      → get_orchestrator_version_profile semver orch has_windows ≡ ok p
      → IsProfile has_windows orch.orchestrator_version p
  unfolding get_orchestrator_version_profile func_map
  get_orchestrator_version_profile-IsProfile orch has_windows p named h =
      elim (Bool-cases (is_empty orch.orchestrator_version)) [
        | inl t ↦ ground (arith, t, h)
        | inr full ↦
            kubernetes_info_one orch has_windows p full
              (ground (arith, (eq_iff orch.orchestrator_type kubernetes).1 named, full, h))
      ]
