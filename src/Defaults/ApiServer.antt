-- ===== src/Defaults/ApiServer.antt =====
-- pkg/api/defaults-apiserver.go: the flags of the API server.
use aks_engine.Common.{
  String, Bool, not, ◌&&◌, Option, none, some, List, [], ◌∷◌, ◌++◌, if◌then◌else◌, ◌==◌, string_eq,
  lookup, insert, delete, ◌<>◌,
}
use aks_engine.Versions.Semver.{Semver}
use aks_engine.Versions.Select.{is_kubernetes_version_ge}
use aks_engine.Defaults.Overlay.{Flags, override}
use aks_engine.Defaults.Components.{Settings, insert_when}

abbrev pub static_api_server_config : Settings → Flags
static_api_server_config o =
    insert_when (not o.use_cloud_controller_manager) "--cloud-config" "/etc/kubernetes/azure.json" (
      insert_when (not o.use_cloud_controller_manager) "--cloud-provider" "azure" (
        insert_when o.enable_encryption "--experimental-encryption-provider-config"
          "/etc/kubernetes/encryption-config.yaml"
          (insert_when (not o.has_cosmos_etcd) "--etcd-cafile" "/etc/kubernetes/certs/ca.crt" (
            ("--bind-address", "0.0.0.0")
            ∷ ("--advertise-address", "<advertiseAddr>")
            ∷ ("--allow-privileged", "true")
            ∷ ("--anonymous-auth", "false")
            ∷ ("--audit-log-path", "/var/log/kubeaudit/audit.log")
            ∷ ("--insecure-port", "8080")
            ∷ ("--secure-port", "443")
            ∷ ("--service-account-lookup", "true")
            ∷ ("--etcd-certfile", "/etc/kubernetes/certs/etcdclient.crt")
            ∷ ("--etcd-keyfile", "/etc/kubernetes/certs/etcdclient.key")
            ∷ ("--etcd-servers", "https://<etcdEndPointUri>:2379")
            ∷ ("--tls-cert-file", "/etc/kubernetes/certs/apiserver.crt")
            ∷ ("--tls-private-key-file", "/etc/kubernetes/certs/apiserver.key")
            ∷ ("--client-ca-file", "/etc/kubernetes/certs/ca.crt")
            ∷ ("--repair-malformed-updates", "false")
            ∷ ("--service-account-key-file", "/etc/kubernetes/certs/apiserver.key")
            ∷ ("--kubelet-client-certificate", "/etc/kubernetes/certs/client.crt")
            ∷ ("--kubelet-client-key", "/etc/kubernetes/certs/client.key")
            ∷ ("--service-cluster-ip-range", o.service_cidr)
            ∷ ("--storage-backend", o.etcd_api_version)
            ∷ ("--enable-bootstrap-token-auth", "true")
            ∷ ("--v", "4")
            ∷ []))))

abbrev aggregated_flags : Flags
aggregated_flags =
    ("--requestheader-client-ca-file", "/etc/kubernetes/certs/proxy-ca.crt")
    ∷ ("--proxy-client-cert-file", "/etc/kubernetes/certs/proxy.crt")
    ∷ ("--proxy-client-key-file", "/etc/kubernetes/certs/proxy.key")
    ∷ ("--requestheader-allowed-names", "")
    ∷ ("--requestheader-extra-headers-prefix", "X-Remote-Extra-")
    ∷ ("--requestheader-group-headers", "X-Remote-Group")
    ∷ ("--requestheader-username-headers", "X-Remote-User")
    ∷ []

abbrev aad_flags : Bool → Option (String × String) → Flags
aad_flags is_china none = []
aad_flags is_china (some (server_app_id, tenant_id)) =
    let issuer_host = if is_china then "sts.chinacloudapi.cn" else "sts.windows.net" in
    ("--oidc-username-claim", "oid")
    ∷ ("--oidc-groups-claim", "groups")
    ∷ ("--oidc-client-id", "spn:" <> server_app_id)
    ∷ ("--oidc-issuer-url", "https://" <> issuer_host <> "/" <> tenant_id <> "/")
    ∷ []

abbrev pub tls_strong_cipher_suites_api_server : String
tls_strong_cipher_suites_api_server =
    "TLS_ECDHE_RSA_WITH_CHACHA20_POLY1305,TLS_ECDHE_ECDSA_WITH_CHACHA20_POLY1305,TLS_ECDHE_RSA_WITH_AES_128_GCM_SHA256,TLS_ECDHE_ECDSA_WITH_AES_128_GCM_SHA256,TLS_ECDHE_RSA_WITH_AES_256_GCM_SHA384,TLS_ECDHE_ECDSA_WITH_AES_256_GCM_SHA384,TLS_ECDHE_RSA_WITH_AES_128_CBC_SHA,TLS_ECDHE_ECDSA_WITH_AES_128_CBC_SHA,TLS_ECDHE_RSA_WITH_AES_256_CBC_SHA,TLS_ECDHE_ECDSA_WITH_AES_256_CBC_SHA"

abbrev when : Bool → Flags → Flags
when b flags = if b then flags else []

abbrev delete_all : List String → Flags → Flags
delete_all [] m = m
delete_all (k ∷ ks) m = delete_all ks (delete k m)

abbrev delete_when : Bool → List String → Flags → Flags
delete_when b keys m = if b then delete_all keys m else m

-- The path of the audit policy that older versions wrote is replaced by the default.
abbrev keep_or_replace : String → String → String → Flags → Flags
keep_or_replace key w v m =
    if key == "--audit-policy-file" && w == "/etc/kubernetes/manifests/audit-policy.yaml"
    then insert key v m
    else m

abbrev fill_one : Option String → String → String → Flags → Flags
fill_one none key v m = insert key v m
fill_one (some w) key v m = keep_or_replace key w v m

unfoldable pub fill_api_server : Flags → Flags → Flags
fill_api_server [] m = m
fill_api_server ((key, v) ∷ d) m = fill_api_server d (fill_one (lookup key m) key v m)

abbrev api_server_or_defaults : Flags → Option Flags → Flags
api_server_or_defaults defaults none = defaults
api_server_or_defaults defaults (some user) = fill_api_server defaults user

module _ (semver : Semver) where
  abbrev at_least : Settings → String → Bool
  at_least o v = is_kubernetes_version_ge semver o.version v

  unfoldable pub get_default_admission_controls : Settings → String × String
  get_default_admission_controls o =
      let plugins =
        if at_least o "1.9.0"
        then "NamespaceLifecycle,LimitRanger,ServiceAccount,DefaultStorageClass,DefaultTolerationSeconds,ValidatingAdmissionWebhook,ResourceQuota,ExtendedResourceToleration"
        else "NamespaceLifecycle,LimitRanger,ServiceAccount,DefaultStorageClass,ResourceQuota" in
      (
        if at_least o "1.10.0" then "--enable-admission-plugins" else "--admission-control",
        if o.enable_pod_security_policy then plugins <> ",PodSecurityPolicy" else plugins,
      )

  unfoldable pub default_api_server_config : Settings → Flags
  unfolding get_default_admission_controls
  default_api_server_config o =
      ("--audit-log-maxage", "30")
      ∷ ("--audit-log-maxbackup", "10")
      ∷ ("--audit-log-maxsize", "100")
      ∷ ("--profiling", "false")
      ∷ (when o.enable_aggregated_apis aggregated_flags
          ++ (aad_flags o.is_china o.aad_profile
              ++ (when (at_least o "1.8.0")
                    (("--audit-policy-file", "/etc/kubernetes/addons/audit-policy.yaml") ∷ [])
                  ++ (when o.enable_rbac (
                        ("--authorization-mode", if at_least o "1.7.0" then "Node,RBAC" else "RBAC")
                        ∷ [])
                      ++ (when (at_least o "1.10.0")
                            (("--tls-cipher-suites", tls_strong_cipher_suites_api_server) ∷ [])
                          ++ get_default_admission_controls o ∷ [])))))

  unfoldable pub set_api_server_config : Settings → Option Flags → Flags
  unfolding default_api_server_config fill_api_server override
  set_api_server_config o user =
      let given = api_server_or_defaults (default_api_server_config o) user in
      delete_when (at_least o "1.14.0-alpha.1") ("--repair-malformed-updates" ∷ []) (
        delete_when (at_least o "1.10.0") ("--admission-control" ∷ []) (
          delete_when (not o.enable_secure_kubelet)
            ("--kubelet-client-certificate" ∷ "--kubelet-client-key" ∷ [])
            (override (static_api_server_config o) given)))
