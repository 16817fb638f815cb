-- ===== src/Validation/Kubernetes.antt =====
-- pkg/api/vlabs/validate.go: the checks of a KubernetesConfig.
pub mod ServiceIp
use Prim.Native.Nat.{bit_and}
use aks_engine.Common.{
  ℕ, ◌+◌, ◌-◌, String, Bool, true, false, not, ◌&&◌, ◌||◌, Option, none, some, List, [], ◌∷◌, map,
  elem, length, lookup, if◌then◌else◌, ltb, leb, ◌==◌, string_eq, nat_eq, is_empty, Result, ok, err,
  ◌>>◌, ◌>>=◌,
}
use aks_engine.Versions.Semver.{Semver, lt}
use aks_engine.Networks.Addresses.{cidr_first_ip, ip4_broadcast_address, to4}
use aks_engine.Defaults.Gates.{split}
use aks_engine.Defaults.Overlay.{Flags}
use aks_engine.Validation.{
  ValidationError, Check, refuse_if, only_if, dual_stack_plugin, invalid_cluster_subnet,
  too_many_cluster_subnets, cluster_subnet_too_small, invalid_docker_bridge, max_pods_too_small,
  invalid_duration, too_few_retries, dns_service_ip_missing, service_cidr_missing,
  invalid_dns_service_ip, invalid_service_cidr, dns_outside_service_cidr, dns_is_broadcast,
  dns_is_first, panicked, invalid_proxy_mode, containerd_with_docker, ccm_needs_version,
  hyperkube_image_missing, version_unparsed,
}
use aks_engine.Validation.Names.{validate_etcd_version, validate_containerd_version}
use aks_engine.Validation.Networks.{
  validate_network_plugin, validate_network_policy, validate_network_plugin_plus_policy,
}

-- net.IPNet: the address of a network and its mask, which ParseCIDR makes of the same length.
pub record IpNet : Type 0 where
  pub ip : List ℕ
  pub mask : List ℕ

-- What the checks use of the packages net and time: ParseIP, whose result has sixteen bytes;
-- ParseCIDR; the number of bits that a mask leaves to hosts; the success of ParseDuration; and
-- whether the first of two durations is less than four times the second, in floating point.
pub record Parsers : Type 0 where
  pub parse_ip : String → Option (List ℕ)
  pub parse_cidr : String → Option IpNet
  pub host_bits : List ℕ → ℕ
  pub parses_duration : String → Bool
  pub is_too_short : String → String → Bool

-- The fields of vlabs.KubernetesConfig that the checks read. A nil map has no keys. A negative number
-- of pods, which is refused like a small one, is left out.
pub record KubernetesConfig : Type 0 where
  pub network_plugin : String
  pub network_policy : String
  pub cluster_subnet : String
  pub docker_bridge_subnet : String
  pub max_pods : ℕ
  pub kubelet_config : Flags
  pub controller_manager_config : Flags
  pub dns_service_ip : String
  pub service_cidr : String
  pub proxy_mode : String
  pub etcd_version : String
  pub container_runtime : String
  pub containerd_version : String
  pub use_cloud_controller_manager : Bool
  pub custom_ccm_image : String
  pub private_azure_registry_server : String
  pub custom_hyperkube_image : String

-- Equal bytes; lists of different lengths are not equal.
unfoldable pub bytes_equal : List ℕ → List ℕ → Bool
bytes_equal [] [] = true
bytes_equal (a ∷ xs) (b ∷ ys) = a == b && bytes_equal xs ys
bytes_equal _ _ = false

abbrev pub equal_to4 : Option (List ℕ) → List ℕ → Bool
equal_to4 none b = false
equal_to4 (some a) b = bytes_equal a b

-- ip.Equal(x): of addresses of sixteen and of four bytes, the IPv4 addresses are compared.
unfoldable pub ip_equal : List ℕ → List ℕ → Bool
unfolding bytes_equal to4
ip_equal a b =
    if length a == length b
    then bytes_equal a b
    else if length a == 16 && length b == 4
    then equal_to4 (to4 a) b
    else if length a == 4 && length b == 16
    then equal_to4 (to4 b) a
    else false

-- The addresses agree on the bits of the mask.
unfoldable pub agrees : List ℕ → List ℕ → List ℕ → Bool
agrees [] [] mask = true
agrees (n ∷ ns) (i ∷ is) (m ∷ mask) = bit_and n m == bit_and i m && agrees ns is mask
agrees _ _ mask = false

abbrev pub or_same : List ℕ → Option (List ℕ) → List ℕ
or_same ip none = ip
or_same ip (some ip4) = ip4

-- n.Contains(ip)
unfoldable pub net_contains : IpNet → List ℕ → Bool
unfolding agrees to4
net_contains n ip = agrees (or_same n.ip (to4 n.ip)) (or_same ip (to4 ip)) n.mask

abbrev pub not_broadcast : List ℕ → Option (Option (List ℕ)) → Check
not_broadcast dns none = err panicked
not_broadcast dns (some none) = refuse_if (ip_equal dns []) dns_is_broadcast
not_broadcast dns (some (some last)) = refuse_if (ip_equal dns last) dns_is_broadcast

-- The address of the DNS service within the network of the services.
unfoldable pub check_dns_ip : List ℕ → IpNet → Check
check_dns_ip dns n = do
  refuse_if (not (net_contains n dns)) dns_outside_service_cidr
  not_broadcast dns (ip4_broadcast_address n.ip n.mask)
  refuse_if (ip_equal (cidr_first_ip n.ip) dns) dns_is_first

abbrev or_fail {ℓ} : {A : Type ℓ} → Option A → ValidationError → Result ValidationError A
or_fail none e = err e
or_fail (some a) e = ok a

abbrev check_duration : (String → Bool) → String → Option String → Check
check_duration parses key none = ok tt
check_duration parses key (some v) = refuse_if (not (parses v)) (invalid_duration key v)

abbrev check_retries : (String → String → Bool) → Option String → Option String → Check
check_retries is_too_short (some grace) (some frequency) =
    refuse_if (is_too_short grace frequency) too_few_retries
check_retries is_too_short grace frequency = ok tt

module _ (semver : Semver) (p : Parsers) where
  unfoldable pub validate_dns_service : KubernetesConfig → Check
  unfolding check_dns_ip
  validate_dns_service k = only_if (not (is_empty k.dns_service_ip && is_empty k.service_cidr)) (do
    refuse_if (is_empty k.dns_service_ip) dns_service_ip_missing
    refuse_if (is_empty k.service_cidr) service_cidr_missing
    dns ← or_fail (p.parse_ip k.dns_service_ip) (invalid_dns_service_ip k.dns_service_ip)
    network ← or_fail (p.parse_cidr k.service_cidr) (invalid_service_cidr k.service_cidr)
    check_dns_ip dns network)

  abbrev checked_subnet : String → String → Option IpNet → Check
  checked_subnet plugin subnet none = err (invalid_cluster_subnet subnet)
  checked_subnet plugin subnet (some n) =
      refuse_if (plugin == "azure" && leb (p.host_bits n.mask) 8) (cluster_subnet_too_small subnet)

  unfoldable pub check_subnets : String → List String → Check
  check_subnets plugin [] = ok tt
  check_subnets plugin (subnet ∷ subnets) =
      checked_subnet plugin subnet (p.parse_cidr subnet) >>= λ _. check_subnets plugin subnets

  unfoldable pub validate_cluster_subnet : KubernetesConfig → Bool → Check
  unfolding split check_subnets
  validate_cluster_subnet k dual_stack =
      let subnets = split b',' k.cluster_subnet in
      only_if (not (is_empty k.cluster_subnet)) (do
        refuse_if (not dual_stack && ltb 1 (length subnets))
            (invalid_cluster_subnet k.cluster_subnet)
        refuse_if (dual_stack && ltb 2 (length subnets)) (too_many_cluster_subnets k.cluster_subnet)
        check_subnets k.network_plugin subnets)

  abbrev parses_cidr : Option IpNet → Bool
  parses_cidr none = false
  parses_cidr (some n) = true

  unfoldable pub validate_durations : KubernetesConfig → Check
  validate_durations k =
      let frequency = lookup "--node-status-update-frequency" k.kubelet_config in
      let flag : String → Option String = λ key. lookup key k.controller_manager_config in
      let checked : String → Check = λ key. check_duration p.parses_duration key (flag key) in
      check_duration p.parses_duration "--node-status-update-frequency" frequency
      >> checked "--node-monitor-grace-period"
      >> check_retries p.is_too_short (flag "--node-monitor-grace-period") frequency
      >> checked "--pod-eviction-timeout"
      >> checked "--route-reconciliation-period"

  unfoldable pub validate_ccm : KubernetesConfig → String → Check
  validate_ccm k version =
      only_if (k.use_cloud_controller_manager || not (is_empty k.custom_ccm_image)) (do
        sv ← or_fail (Semver.make semver version) (version_unparsed version)
        first ← or_fail (Semver.make semver "1.8.0") (version_unparsed "1.8.0")
        refuse_if (lt semver sv first) ccm_needs_version)

  unfoldable pub validate_containerd : KubernetesConfig → Check
  unfolding validate_containerd_version
  validate_containerd k =
      if k.container_runtime == "docker" || is_empty k.container_runtime
      then refuse_if (not (is_empty k.containerd_version)) containerd_with_docker
      else validate_containerd_version k.containerd_version

  unfoldable pub validate_private_azure_registry_server : KubernetesConfig → Check
  validate_private_azure_registry_server k =
      refuse_if
        (not (is_empty k.private_azure_registry_server) && is_empty k.custom_hyperkube_image)
        hyperkube_image_missing

  unfoldable pub validate_kubernetes_config : KubernetesConfig → String → Bool → Bool → Check
  unfolding validate_cluster_subnet validate_durations validate_dns_service validate_etcd_version
      validate_containerd validate_ccm validate_network_plugin validate_network_policy
      validate_network_plugin_plus_policy validate_private_azure_registry_server
  validate_kubernetes_config k version has_windows dual_stack = do
    refuse_if (dual_stack && not (k.network_plugin == "kubenet"))
        (dual_stack_plugin k.network_plugin)
    validate_cluster_subnet k dual_stack
    refuse_if
        (not (is_empty k.docker_bridge_subnet)
          && not (parses_cidr (p.parse_cidr k.docker_bridge_subnet)))
        (invalid_docker_bridge k.docker_bridge_subnet)
    refuse_if (not (k.max_pods == 0) && ltb k.max_pods 5) max_pods_too_small
    validate_durations k
    validate_dns_service k
    refuse_if (not (elem k.proxy_mode ("" ∷ "iptables" ∷ "ipvs" ∷ [])))
        (invalid_proxy_mode k.proxy_mode)
    validate_etcd_version k.etcd_version
    validate_containerd k
    validate_ccm k version
    validate_network_plugin k.network_plugin
    validate_network_policy semver k.network_policy k.network_plugin version has_windows
    validate_network_plugin_plus_policy k.network_plugin k.network_policy
    validate_private_azure_registry_server k
