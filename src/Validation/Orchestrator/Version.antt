-- ===== src/Validation/Orchestrator/Version.antt =====
-- The version of a new Kubernetes cluster whose orchestrator profile passes the checks.
use aks_engine.Common.{
  ◌≡◌, String, Bool, true, false, Option, none, some, List, elem, ◌==◌, string_eq, is_empty, ok,
  ◌>>=◌, bind-eq-ok, inl, inr, arith,
}
use aks_engine.Versions.Semver.{Semver, lt}
use aks_engine.Versions.Select.{kubernetes, get_supported_versions}
use aks_engine.Versions.Rationalize.{EmptyOrElem, rationalize_supported}
use aks_engine.Validation.{
  ValidationError, Check, refuse_if, unsupported_orchestrator_version, zones_need_version,
}
use aks_engine.Validation.Kubernetes.{Parsers}
use aks_engine.Validation.Orchestrator.{
  Definition, or_unparsed, needs_version, rationalized, check_version, check_new_kubernetes,
  check_new, check_others, validate_orchestrator_profile,
}

or_unparsed-some {ℓ} :
    {A : Type ℓ} (version : String) (found : Option A) (a : A)
    → or_unparsed version found ≡ ok a
    → found ≡ some a
or_unparsed-some version none a h = absurd (cc h)
or_unparsed-some version (some b) a h = cc h

filled :
    (s : String) (e : ValidationError) (u : Unit {0})
    → refuse_if (is_empty s) e ≡ ok u
    → is_empty s ≡ false
filled s e u h = ground (arith, h)

listed_if :
    (r : String) (vs : List String) → EmptyOrElem r vs → is_empty r ≡ false → elem r vs ≡ true
listed_if r vs (inl none_left) full = absurd (cc (none_left, full))
listed_if r vs (inr found) full = found

module _ (semver : Semver) (p : Parsers) (parses_base64 : String → Bool)
    (equal_lower : String → String → Bool) where
  -- The version is one that new clusters may have, the version library reads it, and zones come with
  -- at least 1.12.0.
  pub record Supported (a : Definition) : Type 0 where
    pub version : Semver.Version semver
    pub listed :
        elem
          (rationalized semver p parses_base64 equal_lower a a.has_windows)
          (get_supported_versions semver a.orchestrator_type false a.has_windows).0
        ≡ true
    pub parsed :
        Semver.make semver (rationalized semver p parses_base64 equal_lower a a.has_windows)
        ≡ some version
    pub zoned :
        a.has_availability_zones ≡ true
        → (first : Semver.Version semver) × (Semver.make semver "1.12.0" ≡ some first)
          × (lt semver version first ≡ false)

  needs_version-lem :
      (sv : Semver.Version semver) (text : String) (e : ValidationError) (u : Unit {0})
      → needs_version semver p parses_base64 equal_lower sv text e ≡ ok u
      → (first : Semver.Version semver) × (Semver.make semver text ≡ some first)
        × (lt semver sv first ≡ false)
  needs_version-lem sv text e u h =
      let (first, made, h₁) =
        bind-eq-ok (or_unparsed text (Semver.make semver text)) (λ v. refuse_if (lt semver sv v) e)
          u h in
      (first, or_unparsed-some text (Semver.make semver text) first made, ground (arith, h₁))

  kubernetes-Supported :
      (a : Definition) (u : Unit {0})
      → check_new_kubernetes semver p parses_base64 equal_lower a ≡ ok u
      → Supported a
  unfolding check_new_kubernetes
  kubernetes-Supported a u h =
      let text = rationalized semver p parses_base64 equal_lower a a.has_windows in
      let checked : Semver.Version semver → Check =
        check_version semver p parses_base64 equal_lower a in
      let (v, present, h₁) =
        bind-eq-ok (refuse_if (is_empty text) (unsupported_orchestrator_version a.has_windows))
          (λ _. or_unparsed text (Semver.make semver text) >>= checked) u h in
      let (sv, made, h₂) = bind-eq-ok (or_unparsed text (Semver.make semver text)) checked u h₁ in
      record {
        version = sv;
        listed =
            listed_if text (get_supported_versions semver a.orchestrator_type false a.has_windows).0
              (rationalize_supported semver a.orchestrator_type a.orchestrator_release
                a.orchestrator_version false a.has_windows)
              (filled text (unsupported_orchestrator_version a.has_windows) v present);
        parsed = or_unparsed-some text (Semver.make semver text) sv made;
        zoned = λ zones.
            needs_version-lem sv "1.12.0" zones_need_version tt (ground (arith, h₂, zones));
      }

  -- Where `ValidateOrchestratorProfile` accepts a new Kubernetes cluster, the version that the release
  -- and the version of the profile stand for is one of those supported for new clusters, with Windows
  -- if the cluster has such pools; the version library can read it; and it is not before 1.12.0 if
  -- the cluster uses availability zones.
  pub validate_orchestrator_profile-Supported :
      (a : Definition)
      → (a.orchestrator_type == kubernetes) ≡ true
      → validate_orchestrator_profile semver p parses_base64 equal_lower a false ≡ ok tt
      → Supported a
  unfolding validate_orchestrator_profile check_new
  validate_orchestrator_profile-Supported a kube h =
      let (u, passed, rest) =
        bind-eq-ok (check_new semver p parses_base64 equal_lower a)
          (λ _. check_others semver p parses_base64 equal_lower a) tt h in
      kubernetes-Supported a u (rw kube at passed)
