-- ===== src/Validation/Pools/Sequence.antt =====
-- pkg/api/vlabs/validate.go: `validateAgentPoolProfiles`, with the checks that depend on the version.
pub mod Checked
pub mod Unchecked
use aks_engine.Common.{
  String, Bool, true, false, not, ◌&&◌, ◌||◌, Option, none, some, List, [], ◌∷◌, elem,
  if◌then◌else◌, ◌==◌, string_eq, is_empty, Result, ok, err, ◌>>◌, ◌>>=◌,
}
use aks_engine.Versions.Semver.{Semver, lt}
use aks_engine.Versions.Select.{kubernetes, dcos, rationalize_release_and_version}
use aks_engine.OrchestratorData.{swarm, swarm_mode}
use aks_engine.Validation.{
  ValidationError, Check, refuse_if, only_if, version_unsupported, version_unparsed,
  vmss_needs_version, vmss_metadata_needs_version, vmss_storage_account, windows_unsupported,
  windows_profile_missing, dual_stack_windows, dual_stack_core_os, duplicate_pool_name,
  overprovisioning_without_vmss, auditd_without_ubuntu, public_ip_without_vmss,
  mixed_availability_profiles, single_placement_group,
}
use aks_engine.Validation.Names.{validate_pool_name, validate_image_name_and_group}
use aks_engine.Validation.Windows.{WindowsProfile, validate_windows_profile}
use aks_engine.Validation.Pools.{
  PoolProfile, ClusterDefinition, availability_set, scale_sets, storage_account, windows, core_os,
  is_ubuntu, validate_pool_os_type, validate_accelerated_networking,
  validate_orchestrator_specific_properties, validate_availability_profile, validate_roles,
  validate_storage_profile, validate_custom_node_labels, validate_backend_pool_ids, validate_distro,
}

abbrev pub or_error {ℓ} : {A : Type ℓ} → Option A → ValidationError → Result ValidationError A
or_error none e = err e
or_error (some a) e = ok a

abbrev uses_metadata : Option Bool → Bool
uses_metadata none = false
uses_metadata (some b) = b

abbrev pub first_profile : List PoolProfile → String
first_profile [] = ""
first_profile (p ∷ ps) = p.availability_profile

-- `equal_fold` is strings.EqualFold, and `url_parses` whether url.Parse succeeds.
module _ (semver : Semver) (equal_fold : String → String → Bool) (url_parses : String → Bool) where
  abbrev pub rationalized : ClusterDefinition → Bool → Bool → String
  rationalized c is_update has_windows =
      rationalize_release_and_version semver c.orchestrator_type c.orchestrator_release
        c.orchestrator_version is_update has_windows

  abbrev versioned_scale_sets : ClusterDefinition → String → String → Check
  versioned_scale_sets c version storage_profile = do
    refuse_if (is_empty version) version_unsupported
    sv ← or_error (Semver.make semver version) (version_unparsed version)
    first ← or_error (Semver.make semver "1.10.0") (version_unparsed "1.10.0")
    refuse_if (lt semver sv first) vmss_needs_version
    second ← or_error (Semver.make semver "1.10.2") (version_unparsed "1.10.2")
    refuse_if (uses_metadata c.use_instance_metadata && lt semver sv second)
        vmss_metadata_needs_version
    refuse_if (storage_profile == storage_account) vmss_storage_account

  unfoldable pub validate_vmss : ClusterDefinition → Bool → String → Check
  validate_vmss c is_update storage_profile =
      only_if (c.orchestrator_type == kubernetes)
        (versioned_scale_sets c (rationalized c is_update false) storage_profile)

  abbrev windows_profile : ClusterDefinition → Option WindowsProfile → Check
  windows_profile c none = err windows_profile_missing
  windows_profile c (some w) = validate_windows_profile equal_fold url_parses w c.orchestrator_type

  unfoldable pub validate_windows : ClusterDefinition → Bool → Check
  validate_windows c is_update = do
    only_if (c.orchestrator_type == kubernetes) (
        refuse_if (is_empty (rationalized c is_update true))
          (windows_unsupported c.orchestrator_version))
    refuse_if (not (elem c.orchestrator_type (kubernetes ∷ dcos ∷ swarm ∷ swarm_mode ∷ [])))
        (windows_unsupported c.orchestrator_type)
    windows_profile c c.windows_profile

  -- The checks up to the image reference; `seen` are the names of the pools before.
  unfoldable pub validate_name_and_flags : ClusterDefinition → List String → PoolProfile → Check
  unfolding validate_pool_name validate_pool_os_type validate_accelerated_networking
  validate_name_and_flags c seen p = do
    validate_pool_name p.name
    refuse_if (c.is_dual_stack && p.os_type == windows) (dual_stack_windows p.name)
    refuse_if (c.is_dual_stack && p.distro == core_os) (dual_stack_core_os p.name)
    refuse_if (elem p.name seen) (duplicate_pool_name p.name)
    validate_pool_os_type p.os_type
    validate_accelerated_networking c p
    refuse_if (p.vmss_over_provisioning && not (p.availability_profile == scale_sets))
        (overprovisioning_without_vmss p.name)
    refuse_if (p.auditd && not (is_ubuntu p)) (auditd_without_ubuntu p.name)
    refuse_if (p.vmss_node_public_ip && not (p.availability_profile == scale_sets))
        (public_ip_without_vmss p.name)

  unfoldable pub validate_until_image :
      ClusterDefinition → List String → PoolProfile → Result ValidationError PoolProfile
  unfolding validate_name_and_flags validate_orchestrator_specific_properties
  validate_until_image c seen p = validate_name_and_flags c seen p >>= λ _.
      validate_orchestrator_specific_properties c.orchestrator_type p

  abbrev kubernetes_checks : Bool → String → PoolProfile → Check
  kubernetes_checks is_update first p = do
    refuse_if (not (p.availability_profile == first)) mixed_availability_profiles
    refuse_if (p.has_single_placement_group && p.availability_profile == availability_set)
        single_placement_group
    validate_distro is_update p.distro

  -- The checks behind it; `first` is the availability profile of the first pool.
  unfoldable pub validate_after_image : ClusterDefinition → Bool → String → PoolProfile → Check
  unfolding validate_vmss validate_windows
  validate_after_image c is_update first p = do
    validate_availability_profile p
    validate_roles p
    validate_storage_profile c.orchestrator_type p
    validate_custom_node_labels c.orchestrator_type p
    only_if (p.availability_profile == scale_sets) (validate_vmss c is_update p.storage_profile)
    only_if (c.orchestrator_type == kubernetes) (kubernetes_checks is_update first p)
    only_if (p.os_type == windows) (validate_windows c is_update)
    validate_backend_pool_ids p.name p.backend_pool_ids

  -- A pool with an image reference makes the function return from the loop. Its result holds the
  -- pools as they are after it.
  abbrev continue :
      ClusterDefinition
      → Bool
      → String
      → PoolProfile
      → Option (String × String)
      → List PoolProfile
      → Result ValidationError (List PoolProfile)
      → Result ValidationError (List PoolProfile)
  continue c is_update first p (some (name, group)) ps later =
      validate_image_name_and_group name group >>= λ _. ok (p ∷ ps)
  continue c is_update first p none ps later =
      validate_after_image c is_update first p >>= λ _. later >>= λ rest. ok (p ∷ rest)

  unfoldable pub validate_pools :
      ClusterDefinition
      → Bool
      → String
      → List String
      → List PoolProfile
      → Result ValidationError (List PoolProfile)
  unfolding validate_until_image validate_after_image
  validate_pools c is_update first seen [] = ok []
  validate_pools c is_update first seen (p ∷ ps) =
      let later = validate_pools c is_update first (p.name ∷ seen) ps in
      validate_until_image c seen p >>= λ checked.
      continue c is_update first checked checked.image_ref ps later

  unfoldable pub validate_agent_pool_profiles :
      ClusterDefinition → Bool → List PoolProfile → Result ValidationError (List PoolProfile)
  unfolding validate_pools
  validate_agent_pool_profiles c is_update pools =
      validate_pools c is_update (first_profile pools) [] pools
