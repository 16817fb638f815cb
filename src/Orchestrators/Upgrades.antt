-- ===== src/Orchestrators/Upgrades.antt =====
-- What `getKubernetesAvailableUpgradeVersions` of pkg/api/orchestrators.go offers.
use aks_engine.Common.{
  String, ◌≡◌, refl, sym, ◌∙◌, ap, ◌≢◌, ◌⊎◌, Bool, true, false, not, ◌&&◌, ◌||◌, some, List, [],
  ◌∷◌, map, arith, Option-cases, inl, inr, string_eq, filter, elem, elem-filter, ok, err, Memᴰ,
}
use mathlib.Core.Bool.{false≢true}
use aks_engine.Versions.Semver
use aks_engine.Versions.Semver.{Semver, SemverLaws}
use aks_engine.Versions.Select.{
  version_of, passes_gt, passes_lt, get_versions_gt, get_versions_between, get_min_version,
  get_sorted_semver_versions, first_string,
}
use aks_engine.Versions.Between.{within, elem-get_versions_between}
use aks_engine.Orchestrators.{
  skip_upgrade_minor, upgrades_after, get_kubernetes_available_upgrade_versions,
}
use aks_engine.OrchestratorData.{panicked}

module _ (semver : Semver) where
  abbrev pub newer : String → String → Bool
  newer v w = Semver.gt semver (version_of semver v) (version_of semver w)

  abbrev pub older : String → String → Bool
  older v w = Semver.lt semver (version_of semver v) (version_of semver w)

  within_bounds : (lo hi v : String) → within semver lo hi false true v ≡ (older v hi && newer v lo)
  unfolding passes_gt passes_lt
  within_bounds lo hi v = ground arith

  absent_when_none_newer :
      (version v : String) (supported : List String)
      → get_versions_gt semver supported version false true ≡ []
      → (elem v supported && newer v version) ≡ false
  unfolding get_versions_gt passes_gt
  absent_when_none_newer version v supported e =
      let test = λ (w : String).
        passes_gt semver (version_of semver version) false true (version_of semver w) in
      ground (arith, elem-filter test v supported, ap (elem v) e)

  -- The bound of the upgrades is that of `skip_upgrade_minor`, from the version that runs and from
  -- the least version of the list that is newer.
  abbrev pub IsLimit : String → List String → String → Type 0
  IsLimit version supported limit =
      (current : semver.Version) × (min : semver.Version) × (text : String) × (semver.make version
        ≡ some current)
      × (get_min_version semver (get_versions_gt semver supported version false true) true
          ≡ some text)
      × (semver.make text ≡ some min)
      × (limit ≡ skip_upgrade_minor semver current min)

  -- The versions that are offered, from the list `supported` and the version that runs: none where
  -- nothing supported is newer, and otherwise those between that version and the limit.
  abbrev pub Offers : String → List String → List String → Type 0
  Offers version supported vs =
      ((vs ≡ []) × ((v : String) → (elem v supported && newer v version) ≡ false))
      ⊎ ((limit : String) × IsLimit version supported limit
          × ((v : String) → elem v vs ≡ (elem v supported && (older v limit && newer v version))))

  module _ (version : String) (supported : List String) where
    upgrades_after-Offers :
        (current : semver.Version) (w : String) (ws vs : List String)
        → semver.make version ≡ some current
        → get_versions_gt semver supported version false true ≡ w ∷ ws
        → upgrades_after semver current version supported (w ∷ ws) ≡ ok vs
        → Offers version supported vs
    unfolding upgrades_after
    upgrades_after-Offers current w ws vs made above h =
        elim (Option-cases (get_min_version semver (w ∷ ws) true)) [
          | inl e ↦ cc (e, h)
          | inr (text, e) ↦ elim (Option-cases (semver.make text)) [
            | inl g ↦ cc (e, g, h)
            | inr (min, g) ↦
                let limit = skip_upgrade_minor semver current min in
                let q : get_versions_between semver supported version limit false true ≡ vs =
                  ground (arith, e, g, h) in
                inr (
                  limit,
                  (
                    current,
                    min,
                    text,
                    made,
                    ap (λ l. get_min_version semver l true) above ∙ e,
                    g,
                    refl,
                  ),
                  λ v.
                      ap (elem v) (sym q)
                      ∙ elem-get_versions_between semver supported version limit false true v
                      ∙ ap (λ b. elem v supported && b) (within_bounds version limit v),
                )
          ]
        ]

    upgrades_after-Offers_all :
        (current : semver.Version) (newer_ones vs : List String)
        → semver.make version ≡ some current
        → get_versions_gt semver supported version false true ≡ newer_ones
        → upgrades_after semver current version supported newer_ones ≡ ok vs
        → Offers version supported vs
    unfolding upgrades_after
    upgrades_after-Offers_all current [] vs made g h =
        inl (ground (arith, h), λ v. absent_when_none_newer version v supported g)
    upgrades_after-Offers_all current (w ∷ ws) vs made g h =
        upgrades_after-Offers current w ws vs made g h

    -- What is offered for a version: either nothing, and then no supported version is newer; or
    -- exactly the supported versions that are newer than the version and older than the limit,
    -- which is computed from the version and the least newer one.
    pub available_upgrades-Offers :
        (vs : List String)
        → get_kubernetes_available_upgrade_versions semver version supported ≡ ok vs
        → Offers version supported vs
    unfolding get_kubernetes_available_upgrade_versions
    available_upgrades-Offers vs h = elim (Option-cases (semver.make version)) [
      | inl e ↦ cc (e, h)
      | inr (current, e) ↦
          upgrades_after-Offers_all current (get_versions_gt semver supported version false true) vs
            e refl (ground (arith, e, h))
    ]

    -- Each version that is offered is supported, and newer than the version that runs.
    pub available_upgrades_newer :
        (vs : List String) (v : String)
        → get_kubernetes_available_upgrade_versions semver version supported ≡ ok vs
        → elem v vs ≡ true
        → (elem v supported ≡ true) × (newer v version ≡ true)
    available_upgrades_newer vs v h m = elim (available_upgrades-Offers vs h) [
      | inl (empty, none_newer) ↦ absurd (false≢true (ap (elem v) (sym empty) ∙ m))
      | inr (limit, is_limit, exactly) ↦ ground (arith, exactly v, m)
    ]

  module _ (laws : SemverLaws semver) where
    first_of_mem :
        (a : semver.Version) (l : List semver.Version)
        → Memᴰ a l
        → (s : String) × (first_string semver l ≡ some s)
    first_of_mem a [] m = elim m [ ]
    first_of_mem a (x ∷ xs) m = (semver.to_string x, refl)

    get_min_version_found :
        (v : String) (vs : List String)
        → (s : String) × (get_min_version semver (v ∷ vs) true ≡ some s)
    unfolding get_min_version get_sorted_semver_versions
    get_min_version_found v vs =
        let a = version_of semver v in
        let test = λ (sv : semver.Version). not (semver.is_pre sv) || true in
        let pass : test a ≡ true = ground arith in
        let kept = filter test (map (version_of semver) (v ∷ vs)) in
        let m : Memᴰ a kept = rw pass (Memᴰ.head refl) in
        first_of_mem a (semver.sort kept) ((laws.mem-sort kept a).1 m)

    upgrades_after_safe :
        (current : semver.Version) (version : String) (supported newer_ones : List String)
        → upgrades_after semver current version supported newer_ones ≢ err panicked
    unfolding upgrades_after
    upgrades_after_safe current version supported [] h = cc
    upgrades_after_safe current version supported (w ∷ ws) h =
        let (text, found) = get_min_version_found w ws in
        elim (Option-cases (semver.make text)) [
          | inl e ↦ cc (found, e, h)
          | inr (a, e) ↦ cc (found, e, h)
        ]

    -- `getKubernetesAvailableUpgradeVersions` never panics, with a version library that keeps its
    -- laws.
    pub available_upgrades_safe :
        (version : String) (supported : List String)
        → get_kubernetes_available_upgrade_versions semver version supported ≢ err panicked
    unfolding get_kubernetes_available_upgrade_versions
    available_upgrades_safe version supported h = elim (Option-cases (semver.make version)) [
      | inl e ↦ cc (e, h)
      | inr (current, e) ↦
          upgrades_after_safe current version supported
            (get_versions_gt semver supported version false true) (ground (arith, e, h))
    ]
