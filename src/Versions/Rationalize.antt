-- ===== src/Versions/Rationalize.antt =====
-- `RationalizeReleaseAndVersion` and `GetValidPatchVersion` of pkg/api/common/versions.go yield
-- only supported versions.
use aks_engine.Common.{
  String, ◌≡◌, refl, sym, Bool, true, false, ◌&&◌, Option, some, List, [], ◌∷◌, arith, Bool-cases,
  Option-cases, inl, inr, ◌⊎◌, if◌then◌else◌, ◌==◌, string_eq, eq_iff, find?, elem, is_empty,
  trim_prefix_v,
}
use mathlib.Core.Path.{subst}
use aks_engine.Versions.Semver.{Semver}
use aks_engine.Versions.Select.{
  version_of, release_of, or_empty, newer_patch, latest_patch_from, get_latest_patch_version,
  kubernetes, dcos, kubernetes_default_release, kubernetes_default_release_windows,
  get_all_supported_kubernetes_versions, get_default_kubernetes_version, get_supported_versions,
  rationalize_in, rationalize_release_and_version, get_valid_patch_version,
  get_supported_kubernetes_version, is_supported_kubernetes_version,
}
use aks_engine.Versions.Supported.{
  elem-get_all_supported, is_supported_kubernetes_version-eq-lookup,
}

-- The text is empty, or stands in the list.
abbrev pub EmptyOrElem : String → List String → Type 0
EmptyOrElem r vs = (is_empty r ≡ true) ⊎ (elem r vs ≡ true)

EmptyOrElem-if :
    (b : Bool) (x y : String) (vs : List String)
    → EmptyOrElem x vs
    → EmptyOrElem y vs
    → EmptyOrElem (if b then x else y) vs
EmptyOrElem-if true x y vs p q = p
EmptyOrElem-if false x y vs p q = q

EmptyOrElem-head : (v : String) (vs : List String) → EmptyOrElem v (v ∷ vs)
EmptyOrElem-head v vs = inr (ground (arith, eq_iff v v))

EmptyOrElem-cons : (r v : String) (vs : List String) → EmptyOrElem r vs → EmptyOrElem r (v ∷ vs)
EmptyOrElem-cons r v vs h = ground arith

or_empty-if :
    (b : Bool) (v : String) (o : Option String)
    → or_empty (if b then some v else o) ≡ (if b then v else or_empty o)
or_empty-if true v o = refl
or_empty-if false v o = refl

find-EmptyOrElem : (p : String → Bool) (vs : List String) → EmptyOrElem (or_empty (find? p vs)) vs
find-EmptyOrElem p [] = inl refl
find-EmptyOrElem p (v ∷ vs) =
    subst (λ r. EmptyOrElem r (v ∷ vs)) (sym (or_empty-if (p v) v (find? p vs)))
      (EmptyOrElem-if (p v) v (or_empty (find? p vs)) (v ∷ vs) (EmptyOrElem-head v vs)
        (EmptyOrElem-cons (or_empty (find? p vs)) v vs (find-EmptyOrElem p vs)))

module _ (semver : Semver) where
  newer_patch-source :
      (major_minor cur v : String) (a : semver.Version)
      → let c = newer_patch semver major_minor cur v a in (c ≡ cur) ⊎ (c ≡ v)
  unfolding newer_patch
  newer_patch-source major_minor cur v a = ground arith

  latest_patch_from-source :
      (major_minor cur : String) (vs : List String)
      → let r = latest_patch_from semver major_minor cur vs in (r ≡ cur) ⊎ (elem r vs ≡ true)
  unfolding latest_patch_from
  latest_patch_from-source major_minor cur [] = inl refl
  latest_patch_from-source major_minor cur (v ∷ vs) = elim (Option-cases (semver.make v)) [
    | inl e ↦ inl (rw (e, latest_patch_from))
    | inr (a, e) ↦
        let c = newer_patch semver major_minor cur v a in
        let r = latest_patch_from semver major_minor cur (v ∷ vs) in
        let q : r ≡ latest_patch_from semver major_minor c vs = rw (e, latest_patch_from) in
        ground (
          arith,
          q,
          newer_patch-source major_minor cur v a,
          latest_patch_from-source major_minor c vs,
          eq_iff r v,
        )
  ]

  get_latest_patch_version-EmptyOrElem :
      (major_minor : String) (vs : List String)
      → EmptyOrElem (get_latest_patch_version semver major_minor vs) vs
  unfolding get_latest_patch_version
  get_latest_patch_version-EmptyOrElem major_minor vs =
      elim (latest_patch_from-source major_minor "" vs) [
        | inl e ↦ subst (λ r. EmptyOrElem r vs) (sym e) (inl refl)
        | inr m ↦ inr m
      ]

  -- The default Kubernetes version is one that new clusters may use.
  get_default_kubernetes_version-EmptyOrElem :
      (is_update has_windows : Bool)
      → EmptyOrElem
          (get_default_kubernetes_version semver has_windows)
          (get_all_supported_kubernetes_versions semver is_update has_windows)
  unfolding get_default_kubernetes_version
  get_default_kubernetes_version-EmptyOrElem is_update has_windows =
      let release : String =
        if has_windows then kubernetes_default_release_windows else kubernetes_default_release in
      let vs = get_all_supported_kubernetes_versions semver false has_windows in
      let r = get_latest_patch_version semver release vs in
      ground (
        arith,
        get_latest_patch_version-EmptyOrElem release vs,
        elem-get_all_supported semver r false has_windows,
        elem-get_all_supported semver r is_update has_windows,
      )

  rationalize_in-EmptyOrElem :
      (vs : List String) (d rel ver : String)
      → EmptyOrElem d vs
      → EmptyOrElem (rationalize_in semver vs d rel ver) vs
  unfolding rationalize_in
  rationalize_in-EmptyOrElem [] d rel ver h = inl refl
  rationalize_in-EmptyOrElem (s ∷ ss) d rel ver h =
      EmptyOrElem-if (is_empty rel && is_empty ver) _ _ (s ∷ ss) h (
        EmptyOrElem-if (is_empty ver) _ _ (s ∷ ss)
          (get_latest_patch_version-EmptyOrElem rel (s ∷ ss))
          (EmptyOrElem-if (is_empty rel) _ _ (s ∷ ss) (find-EmptyOrElem (λ u. u == ver) (s ∷ ss)) (
            find-EmptyOrElem (λ u. release_of semver (version_of semver u) == rel && u == ver)
              (s ∷ ss))))

  get_supported_versions-default :
      (orch_type : String) (is_update has_windows : Bool)
      → let (vs, d) = get_supported_versions semver orch_type is_update has_windows in
        EmptyOrElem d vs
  unfolding get_supported_versions
  get_supported_versions-default orch_type is_update has_windows =
      elim (Bool-cases (orch_type == kubernetes)) [
        | inl t ↦ rw t (get_default_kubernetes_version-EmptyOrElem is_update has_windows)
        | inr f ↦ rw f (elim (Bool-cases (orch_type == dcos)) [
          | inl t ↦ rw t (inr refl)
          | inr g ↦ rw g (inl refl)
        ])
      ]

  -- Whatever release and version are asked for, a version that `RationalizeReleaseAndVersion`
  -- returns is one of those supported for the orchestrator, or "".
  pub rationalize_supported :
      (orch_type orch_rel orch_ver : String) (is_update has_windows : Bool)
      → EmptyOrElem
          (rationalize_release_and_version semver orch_type orch_rel orch_ver is_update has_windows)
          (get_supported_versions semver orch_type is_update has_windows).0
  unfolding rationalize_release_and_version
  rationalize_supported orch_type orch_rel orch_ver is_update has_windows =
      rationalize_in-EmptyOrElem (get_supported_versions semver orch_type is_update has_windows).0
        (get_supported_versions semver orch_type is_update has_windows).1 (trim_prefix_v orch_rel)
        (trim_prefix_v orch_ver) (get_supported_versions-default orch_type is_update has_windows)

  -- A version that `GetValidPatchVersion` returns is one of those supported for the orchestrator,
  -- or "".
  pub get_valid_patch_version_supported :
      (orch_type orch_ver : String) (is_update has_windows : Bool)
      → EmptyOrElem
          (get_valid_patch_version semver orch_type orch_ver is_update has_windows)
          (get_supported_versions semver orch_type is_update has_windows).0
  unfolding get_valid_patch_version
  get_valid_patch_version_supported orch_type orch_ver u w =
      let asked = rationalize_supported orch_type "" orch_ver u w in
      elim (Bool-cases (is_empty orch_ver)) [
        | inl t ↦ rw t (rationalize_supported orch_type "" "" u w)
        | inr f ↦
            rw f
              (elim (Bool-cases
                (is_empty (rationalize_release_and_version semver orch_type "" orch_ver u w))) [
                  | inl t ↦ rw t (elim (Option-cases (semver.make orch_ver)) [
                    | inl e ↦ rw e (inl refl)
                    | inr (a, e) ↦
                        rw e (rationalize_supported orch_type (release_of semver a) "" u w)
                  ])
                  | inr g ↦ rw g asked
                ])
      ]

  -- `GetSupportedKubernetesVersion` returns a version that new clusters may use, or "", whatever
  -- version is passed in.
  pub get_supported_kubernetes_version_usable :
      (version : String) (has_windows : Bool)
      → let r = get_supported_kubernetes_version semver version has_windows in
        (is_empty r ≡ true) ⊎ (is_supported_kubernetes_version semver r false has_windows ≡ true)
  unfolding get_supported_kubernetes_version
  get_supported_kubernetes_version_usable version w =
      let d = get_default_kubernetes_version semver w in
      ground (
        arith,
        get_default_kubernetes_version-EmptyOrElem false w,
        elem-get_all_supported semver d false w,
        is_supported_kubernetes_version-eq-lookup semver d false w,
        is_supported_kubernetes_version-eq-lookup semver version false w,
      )
