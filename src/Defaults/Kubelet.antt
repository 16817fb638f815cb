-- ===== src/Defaults/Kubelet.antt =====
-- pkg/api/defaults-kubelet.go: the flags of the kubelets of the cluster, of the masters and of each
-- agent pool.
pub mod Supported
use Prim.Native.Nat.{◌^◌}
use Prim.Native.Char.{code}
use aks_engine.Common.{
  ℕ, ◌<◌, String, Bool, true, false, not, ◌&&◌, ◌||◌, Option, none, some, List, [], ◌∷◌, map,
  if◌then◌else◌, ◌==◌, string_eq, ltb, nat_beq, lookup, insert, delete, contains, is_empty, filter,
  ◌<>◌,
}
use aks_engine.Patterns.{is_digit, some_of, number_from}
use aks_engine.Versions.Semver.{Semver}
use aks_engine.Versions.Select.{is_kubernetes_version_ge}
use aks_engine.Defaults.Overlay.{Flags, fill_missing, override}
use aks_engine.Defaults.Gates.{add_default_feature_gates, text_or_empty}
use aks_engine.Defaults.Components.{Settings, insert_when, or_defaults, or_empty}

-- Without EnableSecureKubelet some flags get an empty value, and so are removed at the end.
abbrev pub static_linux_kubelet_config : Settings → Flags
static_linux_kubelet_config o =
    let secure : String → String = λ v. if o.enable_secure_kubelet then v else "" in
    ("--address", "0.0.0.0")
    ∷ ("--allow-privileged", "true")
    ∷ ("--anonymous-auth", secure "false")
    ∷ ("--authorization-mode", "Webhook")
    ∷ ("--client-ca-file", secure "/etc/kubernetes/certs/ca.crt")
    ∷ ("--pod-manifest-path", "/etc/kubernetes/manifests")
    ∷ ("--cluster-dns", o.dns_service_ip)
    ∷ ("--cgroups-per-qos", "true")
    ∷ ("--kubeconfig", "/var/lib/kubelet/kubeconfig")
    ∷ ("--keep-terminated-pod-volumes", "false")
    ∷ ("--tls-cert-file", "/etc/kubernetes/certs/kubeletserver.crt")
    ∷ ("--tls-private-key-file", "/etc/kubernetes/certs/kubeletserver.key")
    ∷ []

-- The copy for Windows, value by value.
abbrev windows_value : Settings → String → String → String
windows_value o key v =
    if key == "--pod-manifest-path" || key == "--tls-cert-file" || key == "--tls-private-key-file"
    then ""
    else if key == "--anonymous-auth"
    then (if o.enable_secure_kubelet then v else "")
    else if key == "--client-ca-file"
    then (if o.enable_secure_kubelet then "c:\\k\\ca.crt" else "")
    else v

abbrev windows_overrides : Flags
windows_overrides =
    ("--azure-container-registry-config", "c:\\k\\azure.json")
    ∷ ("--pod-infra-container-image", "kubletwin/pause")
    ∷ ("--kubeconfig", "c:\\k\\config")
    ∷ ("--cloud-config", "c:\\k\\azure.json")
    ∷ ("--cgroups-per-qos", "false")
    ∷ ("--enforce-node-allocatable", "\"\"\"\"")
    ∷ ("--system-reserved", "memory=2Gi")
    ∷ ("--hairpin-mode", "promiscuous-bridge")
    ∷ ("--image-pull-progress-deadline", "20m")
    ∷ ("--resolv-conf", "\"\"\"\"")
    ∷ ("--eviction-hard", "\"\"\"\"")
    ∷ []

unfoldable pub static_windows_kubelet_config : Settings → Flags
unfolding override
static_windows_kubelet_config o =
    override windows_overrides
      (map (λ e. (e.0, windows_value o e.0 e.1)) (static_linux_kubelet_config o))

abbrev pub tls_strong_cipher_suites_kubelet : String
tls_strong_cipher_suites_kubelet =
    "TLS_ECDHE_ECDSA_WITH_AES_128_GCM_SHA256,TLS_ECDHE_RSA_WITH_AES_128_GCM_SHA256,TLS_ECDHE_ECDSA_WITH_CHACHA20_POLY1305,TLS_ECDHE_RSA_WITH_AES_256_GCM_SHA384,TLS_ECDHE_RSA_WITH_CHACHA20_POLY1305,TLS_ECDHE_ECDSA_WITH_AES_256_GCM_SHA384,TLS_RSA_WITH_AES_256_GCM_SHA384,TLS_RSA_WITH_AES_128_GCM_SHA256"

-- strconv.Atoi gives a number above zero, on a text that may have a sign.
unfoldable pub is_positive_digits : String → Bool
unfolding some_of is_digit number_from
is_positive_digits s =
    some_of is_digit s && ltb 0 (number_from 0 s) && ltb (number_from 0 s) (2 ^ 63)

abbrev pub is_positive : String → Bool
is_positive String.[] = false
is_positive (String.◌∷◌ c s) =
    if nat_beq (code c) b'+' then is_positive_digits s else is_positive_digits (String.◌∷◌ c s)

-- setMissingKubeletValues
unfoldable pub set_missing_kubelet_values : Option Flags → Flags → Flags
unfolding fill_missing
set_missing_kubelet_values user defaults = or_defaults defaults user

abbrev pub delete_when : Bool → String → Flags → Flags
delete_when b key m = if b then delete key m else m

-- Without a feature gate of its own and a positive number, an upgraded cluster has no limit.
unfoldable pub limit_pod_pids : Flags → Flags
unfolding is_positive_digits
limit_pod_pids m =
    if contains (text_or_empty (lookup "--feature-gates" m)) "SupportPodPidsLimit=true"
      && is_positive (text_or_empty (lookup "--pod-max-pids" m))
    then m
    else insert "--pod-max-pids" "-1" m

-- A profile's KubernetesConfig is nil, or has a map of flags, which is not nil once a cluster model
-- has been loaded.
pub record AgentKubelet : Type 0 where
  pub is_windows : Bool
  pub vm_size : String
  pub user_flags : Option Flags

-- The entries of K8sComponentsByVersionMap for the version: "pause" and "nodestatusfreq".
pub record Component : Type 0 where
  pub pause : String
  pub node_status_frequency : String

pub record KubeletConfigs : Type 0 where
  pub cluster_flags : Flags
  pub master_flags : Option Flags
  pub agent_flags : List Flags

module _ (semver : Semver) where
  unfoldable pub remove_kubelet_flags : Flags → String → Flags
  remove_kubelet_flags k v =
      let ge = is_kubernetes_version_ge semver v in
      filter (λ e. not (is_empty e.1))
        (delete_when (ge "1.15.0-beta.1") "--allow-privileged" (
          delete_when (ge "1.12.0") "--cadvisor-port"
            (delete_when (not (ge "1.10.0")) "--pod-max-pids" k)))

  unfoldable pub default_kubelet_config : Settings → Component → Flags
  default_kubelet_config o c =
      let ge = is_kubernetes_version_ge semver o.version in
      insert_when (ge "1.10.0") "--tls-cipher-suites" tls_strong_cipher_suites_kubelet (
        insert_when (ge "1.11.9") "--rotate-certificates" "true" (
          ("--cluster-domain", "cluster.local")
          ∷ ("--network-plugin", "cni")
          ∷ ("--pod-infra-container-image", o.kubernetes_image_base <> c.pause)
          ∷ ("--max-pods", if o.network_plugin == "azure" then "30" else "110")
          ∷ ("--eviction-hard", "memory.available<750Mi,nodefs.available<10%,nodefs.inodesFree<5%")
          ∷ ("--node-status-update-frequency", c.node_status_frequency)
          ∷ ("--image-gc-high-threshold", "85")
          ∷ ("--image-gc-low-threshold", "80")
          ∷ (
            "--non-masquerade-cidr",
            if o.is_ip_masq_agent_enabled then "0.0.0.0/0" else o.cluster_subnet,
          )
          ∷ ("--cloud-provider", "azure")
          ∷ ("--cloud-config", "/etc/kubernetes/azure.json")
          ∷ ("--azure-container-registry-config", "/etc/kubernetes/azure.json")
          ∷ ("--event-qps", "0")
          ∷ ("--cadvisor-port", "0")
          ∷ ("--pod-max-pids", "-1")
          ∷ ("--image-pull-progress-deadline", "30m")
          ∷ ("--enforce-node-allocatable", "pods")
          ∷ ("--streaming-connection-idle-timeout", "4h")
          ∷ []))

  -- What happens to each of the maps at the end.
  unfoldable pub finish_kubelet_config : Bool → String → Flags → Flags
  unfolding limit_pod_pids remove_kubelet_flags
  finish_kubelet_config is_upgrade version m =
      let limited =
        if is_upgrade && is_kubernetes_version_ge semver version "1.14.0"
        then limit_pod_pids m
        else m in
      remove_kubelet_flags limited version

  abbrev pub enforced_linux_config : Settings → Flags
  enforced_linux_config o =
      insert_when o.use_cloud_controller_manager "--cloud-provider" "external"
        (static_linux_kubelet_config o)

  unfoldable pub cluster_kubelet_config : Bool → Settings → Component → Option Flags → Flags
  unfolding default_kubelet_config set_missing_kubelet_values add_default_feature_gates override
      finish_kubelet_config
  cluster_kubelet_config is_upgrade o c user =
      let given = set_missing_kubelet_values user (default_kubelet_config o c) in
      let priority = add_default_feature_gates semver given o.version "1.8.0" "PodPriority=true" in
      let rotating =
        add_default_feature_gates semver priority o.version "1.11.9"
          "RotateKubeletServerCertificate=true" in
      let networked =
        insert_when (o.network_plugin == "kubenet" && not (o.network_policy == "calico"))
          "--network-plugin" "kubenet" rotating in
      finish_kubelet_config is_upgrade o.version (override (enforced_linux_config o) networked)

  unfoldable pub master_kubelet_config : Bool → Settings → Flags → Option Flags → Flags
  unfolding fill_missing add_default_feature_gates finish_kubelet_config
  master_kubelet_config is_upgrade o cluster user =
      let given = fill_missing cluster (or_empty user) in
      finish_kubelet_config is_upgrade o.version
        (add_default_feature_gates semver given o.version "" "")

  -- For a GPU without its device plugin, on versions before 1.11.0.
  abbrev with_accelerators : Settings → String → Flags → Flags
  with_accelerators o vm_size m =
      if contains vm_size "Standard_N"
        && not o.is_nvidia_device_plugin_enabled
        && not (is_kubernetes_version_ge semver o.version "1.11.0")
      then add_default_feature_gates semver m o.version "1.6.0" "Accelerators=true"
      else m

  unfoldable pub agent_kubelet_config : Bool → Settings → Flags → AgentKubelet → Flags
  unfolding fill_missing override static_windows_kubelet_config add_default_feature_gates
      finish_kubelet_config
  agent_kubelet_config is_upgrade o cluster profile =
      let enforced =
        if profile.is_windows then static_windows_kubelet_config o else enforced_linux_config o in
      let given = fill_missing cluster (override enforced (or_empty profile.user_flags)) in
      finish_kubelet_config is_upgrade o.version (with_accelerators o profile.vm_size given)

  -- `none` for the masters is a cluster without a master profile.
  abbrev master_config : Bool → Settings → Flags → Option (Option Flags) → Option Flags
  master_config is_upgrade o cluster none = none
  master_config is_upgrade o cluster (some user) =
      some (master_kubelet_config is_upgrade o cluster user)

  unfoldable pub set_kubelet_config :
      Bool
      → Settings
      → Component
      → Option Flags
      → Option (Option Flags)
      → List AgentKubelet
      → KubeletConfigs
  unfolding cluster_kubelet_config master_kubelet_config agent_kubelet_config
  set_kubelet_config is_upgrade o c user master agents =
      let cluster = cluster_kubelet_config is_upgrade o c user in
      record {
        cluster_flags = cluster;
        master_flags = master_config is_upgrade o cluster master;
        agent_flags = map (agent_kubelet_config is_upgrade o cluster) agents;
      }
