-- ===== src/Examples/Profiles.antt =====
-- The orchestrator profile of a new cluster.
use aks_engine.Common.{◌≡◌, refl, String, Bool, true, false, none, some, ok, err}
use aks_engine.Versions.Table.{all_kubernetes_supported_versions}
use aks_engine.Versions.Select.{
  rationalize_release_and_version, get_supported_versions, get_all_supported_kubernetes_versions,
}
use aks_engine.Validation.{unknown_orchestrator}
use aks_engine.Validation.Kubernetes.{Parsers}
use aks_engine.Validation.Orchestrator.{Definition, disk_size_over, validate_orchestrator_profile}
use aks_engine.Validation.Orchestrator.Version.{Supported, validate_orchestrator_profile-Supported}
use aks_engine.Examples.Releases.{releases}

abbrev parsers : Parsers
parsers = record {
  parse_ip = λ s. none;
  parse_cidr = λ s. none;
  host_bits = λ mask. 16;
  parses_duration = λ s. true;
  is_too_short = λ grace frequency. false;
}

abbrev base64 : String → Bool
base64 s = true

abbrev equal_lower : String → String → Bool
equal_lower s t = false

abbrev definition : Definition
definition = record {
  orchestrator_type = "Kubernetes";
  orchestrator_release = "";
  orchestrator_version = "1.13.9";
  has_windows = false;
  has_availability_zones = false;
  is_dual_stack = false;
  is_azure_stack = false;
  kubernetes_config = none;
  has_dcos_config = false;
  dcos_static_ip = "";
}

accepted :
    validate_orchestrator_profile releases parsers base64 equal_lower definition false ≡ ok tt
unfolding validate_orchestrator_profile rationalize_release_and_version get_supported_versions
    get_all_supported_kubernetes_versions all_kubernetes_supported_versions
accepted = refl

unknown :
    validate_orchestrator_profile releases parsers base64 equal_lower
      (record definition { orchestrator_type = "Nomad" })
      false
    ≡ err (unknown_orchestrator "Nomad")
unfolding validate_orchestrator_profile
unknown = refl

disk_sizes : disk_size_over "1024" ≡ some true
unfolding disk_size_over
disk_sizes = refl

validate_orchestrator_profile-Supported_example :
    Supported releases parsers base64 equal_lower definition
validate_orchestrator_profile-Supported_example =
    validate_orchestrator_profile-Supported releases parsers base64 equal_lower definition refl
      accepted
