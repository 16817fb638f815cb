-- ===== src/OrchestratorData.antt =====
-- pkg/api/orchestrators.go: its data, the names of orchestrators, and the profiles that need no version
-- library.
use Prim.Native.Char.{code}
use aks_engine.Common.{
  ℕ, ◌+◌, String, Bool, true, false, ◌&&◌, List, [], ◌∷◌, leb, nat_beq, if◌then◌else◌, ◌==◌,
  string_eq, is_empty, Result, ok, err,
}
use aks_engine.Versions.Select.{kubernetes, dcos, dcos_default_version}

abbrev pub swarm : String
swarm = "Swarm"

abbrev pub swarm_mode : String
swarm_mode = "SwarmMode"

abbrev pub swarm_version : String
swarm_version = "swarm:1.1.0"

abbrev pub docker_ce_version : String
docker_ce_version = "17.03.*"

-- The errors, by the format strings of the source; `panicked` is an index out of range.
pub data OrchestratorError : Type 0 where
  invalid_version : String → OrchestratorError
  must_specify_orchestrator : String → OrchestratorError
  unsupported_orchestrator : String → OrchestratorError
  not_supported : String → String → OrchestratorError
  missing_version : OrchestratorError
  ambiguous_versions : OrchestratorError
  upgrade_not_supported : String → OrchestratorError
  panicked : OrchestratorError

-- The fields of `OrchestratorProfile` that the file reads.
pub record OrchestratorProfile : Type 0 where
  pub orchestrator_type : String
  pub orchestrator_version : String

pub record OrchestratorVersionProfile : Type 0 where
  pub orchestrator_type : String
  pub orchestrator_version : String
  pub is_default : Bool
  pub upgrades : List OrchestratorProfile

-- Simple case folding of a code point, exact for comparisons with a text in ASCII: besides the
-- capital letters, the Kelvin sign folds to `k` and the long s to `s`.
unfoldable pub fold_code : ℕ → ℕ
fold_code c =
    if leb b'A' c && leb c b'Z'
    then c + 32
    else if nat_beq c 0x212a
    then b'k'
    else if nat_beq c 0x17f
    then b's'
    else c

-- strings.EqualFold
unfoldable pub equal_fold : String → String → Bool
unfolding fold_code
equal_fold String.[] String.[] = true
equal_fold (String.◌∷◌ c s) (String.◌∷◌ d t) =
    nat_beq (fold_code (code c)) (fold_code (code d)) && equal_fold s t
equal_fold _ _ = false

unfoldable pub validate : String → String → Result OrchestratorError String
validate orchestrator version =
    if equal_fold orchestrator kubernetes
    then ok kubernetes
    else if equal_fold orchestrator dcos
    then ok dcos
    else if equal_fold orchestrator swarm
    then ok swarm
    else if equal_fold orchestrator swarm_mode
    then ok swarm_mode
    else if is_empty orchestrator
    then (if is_empty version then ok "" else err (must_specify_orchestrator version))
    else err (unsupported_orchestrator orchestrator)

unfoldable pub dcos_upgrades : String → List OrchestratorProfile
dcos_upgrades version =
    if version == "1.11.0"
    then record { orchestrator_type = dcos; orchestrator_version = "1.11.2" } ∷ []
    else []

unfoldable pub dcos_profile : String → OrchestratorVersionProfile
unfolding dcos_upgrades
dcos_profile version = record {
  orchestrator_type = dcos;
  orchestrator_version = version;
  is_default = version == dcos_default_version;
  upgrades = dcos_upgrades version;
}

unfoldable pub plain_profile : String → String → OrchestratorVersionProfile
plain_profile orchestrator version = record {
  orchestrator_type = orchestrator;
  orchestrator_version = version;
  is_default = false;
  upgrades = [];
}

abbrev pub kubernetes_orchestrator : String → OrchestratorProfile
kubernetes_orchestrator ver = record { orchestrator_type = kubernetes; orchestrator_version = ver }
