-- ===== src/Validation/Orchestrator.antt =====
-- pkg/api/vlabs/validate.go: `ValidateOrchestratorProfile`.
pub mod Version
use Prim.Native.Nat.{◌^◌}
use Prim.Native.Char.{code}
use aks_engine.Common.{
  ℕ, String, Bool, true, false, not, ◌&&◌, ◌||◌, Option, none, some, List, [], ◌∷◌, if◌then◌else◌,
  ltb, leb, nat_beq, ◌==◌, string_eq, nat_eq, is_empty, Result, ok, err, ◌>>◌, ◌>>=◌,
}
use aks_engine.Patterns.{is_digit, some_of, number_from}
use aks_engine.Versions.Semver.{Semver, lt}
use aks_engine.Versions.Select.{
  kubernetes, dcos, rationalize_release_and_version, get_valid_patch_version,
}
use aks_engine.OrchestratorData.{swarm, swarm_mode}
use aks_engine.Validation.{
  ValidationError, Check, refuse_if, only_if, version_unparsed, unsupported_orchestrator_version,
  invalid_bootstrap_ip, zones_need_version, aggregated_apis_need_version, aggregated_apis_need_rbac,
  encryption_needs_version, etcd_key_not_base64, kms_needs_version, pod_security_needs_rbac,
  pod_security_needs_version, invalid_load_balancer_sku, load_balancer_sku_needs_version,
  masters_in_standard_lb, negative_rule_count, invalid_idle_timeout, metadata_on_azure_stack,
  invalid_etcd_disk_size, etcd_disk_too_large, unknown_orchestrator, kubernetes_config_elsewhere,
  dcos_config_elsewhere,
}
use aks_engine.Validation.Networks.{validate_container_runtime}
use aks_engine.Validation.Kubernetes.{KubernetesConfig, Parsers, IpNet, validate_kubernetes_config}

-- The other fields of vlabs.KubernetesConfig that the checks read, with the ones of its own checks.
-- The idle timeout is an int; a negative one, which is refused like a small one, is left out.
pub record Features : Type 0 where
  pub config : KubernetesConfig
  pub enable_aggregated_apis : Bool
  pub enable_rbac : Bool
  pub enable_data_encryption_at_rest : Bool
  pub etcd_encryption_key : String
  pub enable_encryption_with_external_kms : Bool
  pub enable_pod_security_policy : Bool
  pub load_balancer_sku : String
  pub exclude_master_from_standard_lb : Bool
  pub has_negative_rule_count : Bool
  pub outbound_rule_idle_timeout : ℕ
  pub use_instance_metadata : Bool
  pub etcd_disk_size : String

-- The static address of DC/OS is "" where there is no bootstrap profile, and `has_dcos_config` tells
-- of a DcosConfig that is neither nil nor zero.
pub record Definition : Type 0 where
  pub orchestrator_type : String
  pub orchestrator_release : String
  pub orchestrator_version : String
  pub has_windows : Bool
  pub has_availability_zones : Bool
  pub is_dual_stack : Bool
  pub is_azure_stack : Bool
  pub kubernetes_config : Option Features
  pub has_dcos_config : Bool
  pub dcos_static_ip : String

-- strconv.Atoi, and whether the number is above the limit for a disk.
abbrev digits_over : String → Option Bool
digits_over s =
    if some_of is_digit s && ltb (number_from 0 s) (2 ^ 63)
    then some (ltb 1023 (number_from 0 s))
    else none

abbrev negative_over : String → Option Bool
negative_over s = if some_of is_digit s && leb (number_from 0 s) (2 ^ 63) then some false else none

unfoldable pub disk_size_over : String → Option Bool
unfolding some_of is_digit number_from
disk_size_over String.[] = none
disk_size_over (String.◌∷◌ c s) =
    if nat_beq (code c) b'+'
    then digits_over s
    else if nat_beq (code c) b'-'
    then negative_over s
    else digits_over (String.◌∷◌ c s)

abbrev check_disk_size : Option Bool → Check
check_disk_size none = err invalid_etcd_disk_size
check_disk_size (some over) = refuse_if over etcd_disk_too_large

abbrev is_parsed {ℓ} : {A : Type ℓ} → Option A → Bool
is_parsed none = false
is_parsed (some a) = true

abbrev pub or_unparsed {ℓ} : {A : Type ℓ} → String → Option A → Result ValidationError A
or_unparsed version none = err (version_unparsed version)
or_unparsed version (some a) = ok a

abbrev runtime_of : Option Features → Option String
runtime_of none = none
runtime_of (some f) = some f.config.container_runtime

unfoldable pub check_azure_stack : Features → Check
unfolding disk_size_over
check_azure_stack f = do
  refuse_if f.use_instance_metadata metadata_on_azure_stack
  only_if (not (is_empty f.etcd_disk_size)) (check_disk_size (disk_size_over f.etcd_disk_size))

-- `parses_base64` is the success of base64.StdEncoding.DecodeString, and `equal_lower` compares two
-- texts by strings.ToLower.
module _ (semver : Semver) (p : Parsers) (parses_base64 : String → Bool)
    (equal_lower : String → String → Bool) where
  -- The version is not before the given one.
  abbrev pub needs_version : Semver.Version semver → String → ValidationError → Check
  needs_version sv first e =
      or_unparsed first (Semver.make semver first) >>= λ v. refuse_if (lt semver sv v) e

  unfoldable pub check_load_balancer : Features → Semver.Version semver → Check
  check_load_balancer f sv = do
    refuse_if
        (not (is_empty f.load_balancer_sku)
          && not (equal_lower f.load_balancer_sku "Standard")
          && not (equal_lower f.load_balancer_sku "Basic"))
        invalid_load_balancer_sku
    only_if (f.load_balancer_sku == "Standard") (do
      needs_version sv "1.11.0" load_balancer_sku_needs_version
      refuse_if (not f.exclude_master_from_standard_lb) masters_in_standard_lb)
    refuse_if f.has_negative_rule_count negative_rule_count
    refuse_if
        (f.load_balancer_sku == "Standard"
          && not (f.outbound_rule_idle_timeout == 0)
          && (ltb f.outbound_rule_idle_timeout 4 || ltb 120 f.outbound_rule_idle_timeout))
        invalid_idle_timeout

  unfoldable pub check_features : Definition → String → Semver.Version semver → Features → Check
  unfolding check_load_balancer check_azure_stack
  check_features a version sv f = do
    validate_kubernetes_config semver p f.config version a.has_windows a.is_dual_stack
    first ← or_unparsed "1.7.0" (Semver.make semver "1.7.0")
    only_if f.enable_aggregated_apis (do
      refuse_if (lt semver sv first) aggregated_apis_need_version
      refuse_if (not f.enable_rbac) aggregated_apis_need_rbac)
    only_if f.enable_data_encryption_at_rest (do
      refuse_if (lt semver sv first) encryption_needs_version
      refuse_if (not (is_empty f.etcd_encryption_key) && not (parses_base64 f.etcd_encryption_key))
          etcd_key_not_base64)
    only_if f.enable_encryption_with_external_kms (needs_version sv "1.10.0" kms_needs_version)
    only_if f.enable_pod_security_policy (do
      refuse_if (not f.enable_rbac) pod_security_needs_rbac
      needs_version sv "1.8.0" pod_security_needs_version)
    check_load_balancer f sv
    only_if a.is_azure_stack (check_azure_stack f)

  abbrev check_config : Definition → String → Semver.Version semver → Option Features → Check
  check_config a version sv none = ok tt
  check_config a version sv (some f) = check_features a version sv f

  abbrev pub rationalized : Definition → Bool → String
  rationalized a has_windows =
      rationalize_release_and_version semver a.orchestrator_type a.orchestrator_release
        a.orchestrator_version false has_windows

  abbrev pub check_version : Definition → Semver.Version semver → Check
  check_version a sv = do
    only_if a.has_availability_zones (needs_version sv "1.12.0" zones_need_version)
    check_config a (rationalized a a.has_windows) sv a.kubernetes_config

  unfoldable pub check_new_kubernetes : Definition → Check
  unfolding check_features
  check_new_kubernetes a =
      let version = rationalized a a.has_windows in
      refuse_if (is_empty version) (unsupported_orchestrator_version a.has_windows) >>= λ _.
      or_unparsed version (Semver.make semver version) >>= λ sv. check_version a sv

  unfoldable pub check_new_dcos : Definition → Check
  check_new_dcos a = do
    refuse_if (is_empty (rationalized a false)) (unsupported_orchestrator_version false)
    refuse_if (not (is_empty a.dcos_static_ip) && not (is_parsed (p.parse_ip a.dcos_static_ip)))
        (invalid_bootstrap_ip a.dcos_static_ip)

  unfoldable pub check_new : Definition → Check
  unfolding check_new_kubernetes check_new_dcos
  check_new a =
      if a.orchestrator_type == kubernetes
      then check_new_kubernetes a
      else if a.orchestrator_type == dcos
      then check_new_dcos a
      else refuse_if (not (a.orchestrator_type == swarm || a.orchestrator_type == swarm_mode))
          (unknown_orchestrator a.orchestrator_type)

  -- An update needs a supported patch version for the minor version.
  unfoldable pub check_update : Definition → Check
  check_update a =
      refuse_if
        ((a.orchestrator_type == dcos || a.orchestrator_type == kubernetes)
          && is_empty (rationalized a a.has_windows)
          && is_empty (
              get_valid_patch_version semver a.orchestrator_type a.orchestrator_version true
                a.has_windows))
        (unsupported_orchestrator_version a.has_windows)

  unfoldable pub check_others : Definition → Check
  unfolding validate_container_runtime
  check_others a = do
    refuse_if (not (a.orchestrator_type == kubernetes) && is_parsed a.kubernetes_config)
        kubernetes_config_elsewhere
    refuse_if (not (a.orchestrator_type == dcos) && a.has_dcos_config) dcos_config_elsewhere
    validate_container_runtime a.orchestrator_type (runtime_of a.kubernetes_config) a.has_windows

  unfoldable pub validate_orchestrator_profile : Definition → Bool → Check
  unfolding check_new check_update check_others
  validate_orchestrator_profile a is_update =
      (if is_update then check_update a else check_new a) >>= λ _. check_others a
