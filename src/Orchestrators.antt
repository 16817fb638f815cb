-- ===== src/Orchestrators.antt =====
-- pkg/api/orchestrators.go: which orchestrator versions are offered, and which upgrades from each.
pub mod Upgrades
pub mod Profiles
use Prim.Native.Nat.{◌%◌, ◌^◌}
use Prim.Native.Char.{code}
use aks_engine.Common.{
  ℕ, ◌+◌, ◌-◌, String, Bool, true, false, ◌&&◌, ◌||◌, Option, none, some, List, [], ◌∷◌, ◌++◌, map,
  ltb, leb, nat_beq, if◌then◌else◌, ◌==◌, string_eq, any, is_empty, decimal, ◌<>◌, Result, ok, err,
  ◌>>=◌,
}
use aks_engine.Versions.Semver.{Semver}
use aks_engine.Versions.Select.{
  kubernetes, dcos, dcos_default_version, all_dcos_supported_versions, get_versions_gt,
  get_versions_between, get_min_version, get_all_supported_kubernetes_versions,
  get_default_kubernetes_version,
}
use aks_engine.OrchestratorData.{
  swarm, swarm_mode, swarm_version, docker_ce_version, OrchestratorError, OrchestratorProfile,
  OrchestratorVersionProfile, fold_code, equal_fold, validate, dcos_upgrades, dcos_profile,
  plain_profile, kubernetes_orchestrator, invalid_version, must_specify_orchestrator,
  unsupported_orchestrator, not_supported, missing_version, ambiguous_versions,
  upgrade_not_supported, panicked,
}

module _ (semver : Semver) where
  open semver use {Version, make, major, minor}

  -- `versionsMap`; a missing key gives the empty list.
  unfoldable pub versions_map : String → List String
  versions_map orchestrator =
      if orchestrator == kubernetes
      then get_all_supported_kubernetes_versions semver true false
      else if orchestrator == dcos
      then all_dcos_supported_versions
      else if orchestrator == swarm
      then swarm_version ∷ []
      else if orchestrator == swarm_mode
      then docker_ce_version ∷ []
      else []

  unfoldable pub is_version_supported : OrchestratorProfile → Bool
  is_version_supported cs_orch =
      any (λ version. version == cs_orch.orchestrator_version)
        (versions_map cs_orch.orchestrator_type)

  -- `semver.Make` with its error.
  abbrev made_or_error : String → Option Version → Result OrchestratorError Version
  made_or_error s (some v) = ok v
  made_or_error s none = err (invalid_version s)

  abbrev parse : String → Result OrchestratorError Version
  parse s = made_or_error s (make s)

  -- The upper bound of the upgrades, exclusive. Minor versions are uint64.
  unfoldable pub skip_upgrade_minor : Version → Version → String
  skip_upgrade_minor current_ver min =
      if leb (major min) (major current_ver) && ltb ((minor current_ver + 1) % 2 ^ 64) (minor min)
      then decimal (major min) <> "." <> decimal ((minor min + 1) % 2 ^ 64) <> ".0-alpha.0"
      else decimal (major current_ver)
        <> "."
        <> decimal ((minor current_ver + 2) % 2 ^ 64)
        <> ".0-alpha.0"

  abbrev or_panic : Option String → Result OrchestratorError String
  or_panic (some s) = ok s
  or_panic none = err panicked

  upgrades_after :
      Version → String → List String → List String → Result OrchestratorError (List String)
  unfolding skip_upgrade_minor
  upgrades_after current_ver version supported [] = ok []
  upgrades_after current_ver version supported (v ∷ vs) = do
    text ← or_panic (get_min_version semver (v ∷ vs) true)
    min ← parse text
    ok (
        get_versions_between semver supported version (skip_upgrade_minor current_ver min) false
          true)

  unfoldable pub get_kubernetes_available_upgrade_versions :
      String → List String → Result OrchestratorError (List String)
  unfolding upgrades_after
  get_kubernetes_available_upgrade_versions version supported = do
    current_ver ← parse version
    upgrades_after current_ver version supported
        (get_versions_gt semver supported version false true)

  unfoldable pub kubernetes_upgrades :
      String → Bool → Result OrchestratorError (List OrchestratorProfile)
  kubernetes_upgrades version has_windows = do
    upgrade_versions ←
        get_kubernetes_available_upgrade_versions version
          (get_all_supported_kubernetes_versions semver false has_windows)
    ok (map kubernetes_orchestrator upgrade_versions)

  -- One element of the result of `kubernetesInfo`.
  kubernetes_profile : Bool → String → Result OrchestratorError OrchestratorVersionProfile
  kubernetes_profile has_windows ver = do
    upgrades ← kubernetes_upgrades ver has_windows
    ok (record {
      orchestrator_type = kubernetes;
      orchestrator_version = ver;
      is_default = ver == get_default_kubernetes_version semver has_windows;
      upgrades = upgrades;
    })

  kubernetes_profiles :
      Bool → List String → Result OrchestratorError (List OrchestratorVersionProfile)
  unfolding kubernetes_profile
  kubernetes_profiles has_windows [] = ok []
  kubernetes_profiles has_windows (ver ∷ vers) = do
    p ← kubernetes_profile has_windows ver
    ps ← kubernetes_profiles has_windows vers
    ok (p ∷ ps)

  unfoldable pub kubernetes_info :
      OrchestratorProfile → Bool → Result OrchestratorError (List OrchestratorVersionProfile)
  unfolding kubernetes_profiles
  kubernetes_info cs_orch has_windows =
      let version = cs_orch.orchestrator_version in
      if is_empty version
      then kubernetes_profiles has_windows
          (get_all_supported_kubernetes_versions semver false has_windows)
      else if is_version_supported cs_orch
      then kubernetes_profiles has_windows (version ∷ [])
      else err (not_supported kubernetes version)

  unfoldable pub dcos_info :
      OrchestratorProfile → Bool → Result OrchestratorError (List OrchestratorVersionProfile)
  unfolding dcos_profile
  dcos_info cs_orch has_windows =
      let version = cs_orch.orchestrator_version in
      if is_empty version
      then ok (map dcos_profile all_dcos_supported_versions)
      else if is_version_supported cs_orch
      then ok (dcos_profile version ∷ [])
      else err (not_supported dcos version)

  unfoldable pub swarm_info :
      OrchestratorProfile → Bool → Result OrchestratorError (List OrchestratorVersionProfile)
  unfolding plain_profile
  swarm_info cs_orch has_windows =
      let version = cs_orch.orchestrator_version in
      if is_empty version
      then ok (plain_profile swarm swarm_version ∷ [])
      else if is_version_supported cs_orch
      then ok (plain_profile swarm version ∷ [])
      else err (not_supported swarm version)

  unfoldable pub docker_ce_info :
      OrchestratorProfile → Bool → Result OrchestratorError (List OrchestratorVersionProfile)
  unfolding plain_profile
  docker_ce_info cs_orch has_windows =
      let version = cs_orch.orchestrator_version in
      if is_empty version
      then ok (plain_profile swarm_mode docker_ce_version ∷ [])
      else if is_version_supported cs_orch
      then ok (plain_profile swarm_mode version ∷ [])
      else err (not_supported swarm_mode version)

  -- A call through `funcmap`, whose keys are the four orchestrators that `validate` returns.
  func_map : OrchestratorProfile → Bool → Result OrchestratorError (List OrchestratorVersionProfile)
  func_map cs_orch has_windows =
      let orchestrator = cs_orch.orchestrator_type in
      if orchestrator == kubernetes
      then kubernetes_info cs_orch has_windows
      else if orchestrator == dcos
      then dcos_info cs_orch has_windows
      else if orchestrator == swarm
      then swarm_info cs_orch has_windows
      else if orchestrator == swarm_mode
      then docker_ce_info cs_orch has_windows
      else err panicked

  abbrev nothing : OrchestratorProfile
  nothing = record { orchestrator_type = ""; orchestrator_version = "" }

  -- The loop over all of `funcmap`. Go does not fix its order; the model takes that of the literal.
  all_profiles : Result OrchestratorError (List OrchestratorVersionProfile)
  all_profiles = do
    a ← kubernetes_info nothing false
    b ← dcos_info nothing false
    c ← swarm_info nothing false
    d ← docker_ce_info nothing false
    ok (a ++ (b ++ (c ++ d)))

  -- `GetOrchestratorVersionProfileList`
  unfoldable pub get_orchestrator_version_profile_list :
      String → String → Bool → Result OrchestratorError (List OrchestratorVersionProfile)
  unfolding func_map all_profiles
  get_orchestrator_version_profile_list orchestrator version windows = do
    name ← validate orchestrator version
    if is_empty name
        then all_profiles
        else func_map (record { orchestrator_type = name; orchestrator_version = version }) windows

  abbrev only :
      List OrchestratorVersionProfile → Result OrchestratorError OrchestratorVersionProfile
  only (p ∷ []) = ok p
  only _ = err ambiguous_versions

  unfoldable pub get_orchestrator_version_profile :
      OrchestratorProfile → Bool → Result OrchestratorError OrchestratorVersionProfile
  unfolding func_map
  get_orchestrator_version_profile orch has_windows =
      if is_empty orch.orchestrator_version
      then err missing_version
      else if orch.orchestrator_type == kubernetes || orch.orchestrator_type == dcos
      then (do ps ← func_map orch has_windows; only ps)
      else err (upgrade_not_supported orch.orchestrator_type)
