-- ===== src/Defaults/Kubelet/Supported.antt =====
-- The flags that no kubelet of a version is started with.
use aks_engine.Common.{
  ◌≡◌, refl, String, Bool, true, false, not, ◌&&◌, ◌||◌, Option, none, some, List, [], ◌∷◌, map,
  All, filter, delete, is_empty, Bool-cases, inl, inr, if◌then◌else◌, ◌==◌, string_eq, arith,
}
use aks_engine.Versions.Semver.{Semver}
use aks_engine.Versions.Select.{is_kubernetes_version_ge}
use aks_engine.Defaults.Overlay.{Flags}
use aks_engine.Defaults.Components.{Settings}
use aks_engine.Defaults.Kubelet.{
  Component, AgentKubelet, delete_when, remove_kubelet_flags, limit_pod_pids, finish_kubelet_config,
  cluster_kubelet_config, master_config, master_kubelet_config, agent_kubelet_config,
  set_kubelet_config,
}

module _ {κ} (P : String × String → Type κ) where
  All-filter : (p : String × String → Bool) (m : Flags) → All P m → All P (filter p m)
  All-filter p [] h = tt
  All-filter p (e ∷ m) h = elim (Bool-cases (p e)) [
    | inl t ↦ rw t (h.0, All-filter p m h.1)
    | inr f ↦ rw f (All-filter p m h.1)
  ]

  All-delete : (k : String) (m : Flags) → All P m → All P (delete k m)
  All-delete k [] h = tt
  All-delete k ((j, v) ∷ m) h = elim (Bool-cases (j == k)) [
    | inl t ↦ rw t (All-delete k m h.1)
    | inr f ↦ rw f (h.0, All-delete k m h.1)
  ]

  All-delete_when : (b : Bool) (k : String) (m : Flags) → All P m → All P (delete_when b k m)
  All-delete_when true k m h = All-delete k m h
  All-delete_when false k m h = h

  All-both {ι} :
      (Q : String × String → Type ι) (m : Flags) → All P m → All Q m → All (λ e. P e × Q e) m
  All-both Q [] h k = tt
  All-both Q (e ∷ m) h k = ((h.0, k.0), All-both Q m h.1 k.1)

  All-weaken {ι} :
      (Q : String × String → Type ι) (m : Flags)
      → ((e : String × String) → P e → Q e)
      → All P m
      → All Q m
  All-weaken Q [] f h = tt
  All-weaken Q (e ∷ m) f h = (f e h.0, All-weaken Q m f h.1)

filtered : (p : String × String → Bool) (m : Flags) → All (λ e. p e ≡ true) (filter p m)
filtered p [] = tt
filtered p (e ∷ m) = elim (Bool-cases (p e)) [
  | inl t ↦ rw t (t, filtered p m)
  | inr f ↦ rw f (filtered p m)
]

deleted : (k : String) (m : Flags) → All (λ e. (e.0 == k) ≡ false) (delete k m)
deleted k [] = tt
deleted k ((j, v) ∷ m) = elim (Bool-cases (j == k)) [
  | inl t ↦ rw t (deleted k m)
  | inr f ↦ rw f (f, deleted k m)
]

anything : (k : String) (m : Flags) → All (λ e. (false && e.0 == k) ≡ false) m
anything k [] = tt
anything k (e ∷ m) = (refl, anything k m)

deleted_when :
    (b : Bool) (k : String) (m : Flags) → All (λ e. (b && e.0 == k) ≡ false) (delete_when b k m)
deleted_when true k m = deleted k m
deleted_when false k m = anything k m

module _ (semver : Semver) where
  -- The flags that a version has no more, or does not have yet.
  abbrev pub is_refused : String → String → Bool
  is_refused version key =
      is_kubernetes_version_ge semver version "1.15.0-beta.1" && key == "--allow-privileged"
      || is_kubernetes_version_ge semver version "1.12.0" && key == "--cadvisor-port"
      || not (is_kubernetes_version_ge semver version "1.10.0") && key == "--pod-max-pids"

  abbrev pub AreSupported : String → Flags → Type 0
  AreSupported version flags =
      All (λ e. (is_empty e.1 ≡ false) × (is_refused version e.0 ≡ false)) flags

  remove_kubelet_flags-AreSupported :
      (k : Flags) (version : String) → AreSupported version (remove_kubelet_flags semver k version)
  unfolding remove_kubelet_flags
  remove_kubelet_flags-AreSupported k version =
      let ge = is_kubernetes_version_ge semver version in
      let pids = not (ge "1.10.0") in
      let port = ge "1.12.0" in
      let privileged = ge "1.15.0-beta.1" in
      let NoPids : String × String → Type 0 = λ e. (pids && e.0 == "--pod-max-pids") ≡ false in
      let NoPort : String × String → Type 0 = λ e. (port && e.0 == "--cadvisor-port") ≡ false in
      let NoPrivileged : String × String → Type 0 =
        λ e. (privileged && e.0 == "--allow-privileged") ≡ false in
      let m₁ = delete_when pids "--pod-max-pids" k in
      let m₂ = delete_when port "--cadvisor-port" m₁ in
      let m₃ = delete_when privileged "--allow-privileged" m₂ in
      let a =
        All-delete_when NoPids privileged "--allow-privileged" m₂ (
          All-delete_when NoPids port "--cadvisor-port" m₁
            (deleted_when pids "--pod-max-pids" k)) in
      let b =
        All-delete_when NoPort privileged "--allow-privileged" m₂
          (deleted_when port "--cadvisor-port" m₁) in
      let c = deleted_when privileged "--allow-privileged" m₂ in
      let clean =
        All-both NoPids (λ e. NoPort e × NoPrivileged e) m₃ a
          (All-both NoPort NoPrivileged m₃ b c) in
      let filled : String × String → Bool = λ e. not (is_empty e.1) in
      All-weaken (λ e. (filled e ≡ true) × (NoPids e × (NoPort e × NoPrivileged e)))
        (λ e. (is_empty e.1 ≡ false) × (is_refused version e.0 ≡ false)) (filter filled m₃)
        (λ e h. (ground (arith, h.0), ground (arith, h.1.0, h.1.1.0, h.1.1.1)))
        (All-both (λ e. filled e ≡ true) (λ e. NoPids e × (NoPort e × NoPrivileged e))
          (filter filled m₃) (filtered filled m₃)
          (All-filter (λ e. NoPids e × (NoPort e × NoPrivileged e)) filled m₃ clean))

  finish-AreSupported :
      (is_upgrade : Bool) (version : String) (m : Flags)
      → AreSupported version (finish_kubelet_config semver is_upgrade version m)
  unfolding finish_kubelet_config
  finish-AreSupported is_upgrade version m =
      remove_kubelet_flags-AreSupported
        (if is_upgrade && is_kubernetes_version_ge semver version "1.14.0"
          then limit_pod_pids m
          else m)
        version

  abbrev pub MasterSupported : String → Option Flags → Type 0
  MasterSupported version none = Unit
  MasterSupported version (some flags) = AreSupported version flags

  agents-AreSupported :
      (is_upgrade : Bool) (o : Settings) (cluster : Flags) (agents : List AgentKubelet)
      → All (AreSupported o.version) (map (agent_kubelet_config semver is_upgrade o cluster) agents)
  unfolding agent_kubelet_config
  agents-AreSupported is_upgrade o cluster [] = tt
  agents-AreSupported is_upgrade o cluster (agent ∷ agents) = (
    search (finish-AreSupported is_upgrade o.version),
    agents-AreSupported is_upgrade o cluster agents,
  )

  masters-AreSupported :
      (is_upgrade : Bool) (o : Settings) (cluster : Flags) (master : Option (Option Flags))
      → MasterSupported o.version (master_config semver is_upgrade o cluster master)
  unfolding master_kubelet_config
  masters-AreSupported is_upgrade o cluster none = tt
  masters-AreSupported is_upgrade o cluster (some user) =
      search (finish-AreSupported is_upgrade o.version)

  -- Whatever flags a user gives, `setKubeletConfig` leaves no flag with an empty value, no
  -- `--pod-max-pids` before 1.10.0, no `--cadvisor-port` from 1.12.0 on and no `--allow-
  -- privileged` from 1.15.0-beta.1 on, for the cluster, the masters and each agent pool, whether
  -- the cluster is new or upgraded.
  pub set_kubelet_config-AreSupported :
      (is_upgrade : Bool) (o : Settings) (c : Component) (user : Option Flags)
      (master : Option (Option Flags)) (agents : List AgentKubelet)
      → AreSupported o.version
          (set_kubelet_config semver is_upgrade o c user master agents).cluster_flags
        × MasterSupported o.version
            (set_kubelet_config semver is_upgrade o c user master agents).master_flags
        × All
            (AreSupported o.version)
            (set_kubelet_config semver is_upgrade o c user master agents).agent_flags
  unfolding set_kubelet_config cluster_kubelet_config
  set_kubelet_config-AreSupported is_upgrade o c user master agents =
      let cluster = cluster_kubelet_config semver is_upgrade o c user in
      (
        search (finish-AreSupported is_upgrade o.version),
        masters-AreSupported is_upgrade o cluster master,
        agents-AreSupported is_upgrade o cluster agents,
      )
