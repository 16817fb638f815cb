-- ===== src/Versions/Latest.antt =====
-- `GetLatestPatchVersion` of pkg/api/common/versions.go.
use aks_engine.Common.{
  String, ◌≡◌, refl, sym, Bool, true, false, some, List, [], ◌∷◌, arith, Bool-cases, inl, inr, ◌⊎◌,
  if◌then◌else◌, ◌==◌, string_eq, eq_iff, any, elem, All, is_empty,
}
use mathlib.Core.Path.{subst}
use aks_engine.Versions.Semver
use aks_engine.Versions.Semver.{Semver, SemverLaws}
use aks_engine.Versions.Select.{
  version_of, release_of, newer_patch, latest_patch_from, get_latest_patch_version,
}

module _ (semver : Semver) (laws : SemverLaws semver) where
  abbrev pub in_release : String → String → Bool
  in_release major_minor v = release_of semver (version_of semver v) == major_minor

  abbrev at_least : String → String → Bool
  at_least r v = Semver.ge semver (version_of semver r) (version_of semver v)

  abbrev pub Parses : String → Type 0
  Parses v = (a : semver.Version) × (semver.make v ≡ some a) × (is_empty v ≡ false)

  at_least_refl : (r : String) → at_least r r ≡ true
  at_least_refl r = ground (arith, laws.compare_swap (version_of semver r) (version_of semver r))

  -- What the loop has at the end, from a version of the release on.
  pub record IsLatest (major_minor r : String) (vs : List String) : Type 0 where
    pub matches : in_release major_minor r ≡ true
    pub nonempty : is_empty r ≡ false
    pub newest : All (λ v. in_release major_minor v ≡ true → at_least r v ≡ true) vs

  newer_patch-IsLatest :
      (major_minor cur v : String) (a : semver.Version)
      → semver.make v ≡ some a
      → is_empty v ≡ false
      → in_release major_minor cur ≡ true
      → is_empty cur ≡ false
      → let c = newer_patch semver major_minor cur v a in
        (in_release major_minor c ≡ true)
        × (is_empty c ≡ false)
        × (at_least c cur ≡ true)
        × (in_release major_minor v ≡ true → at_least c v ≡ true)
        × ((c ≡ cur) ⊎ (c ≡ v))
  unfolding newer_patch
  newer_patch-IsLatest major_minor cur v a made full m n =
      ground
        (arith, at_least_refl cur, at_least_refl v, laws.compare_swap a (version_of semver cur))

  latest_patch_from-cons :
      (major_minor cur v : String) (a : semver.Version) (vs : List String)
      → semver.make v ≡ some a
      → latest_patch_from semver major_minor cur (v ∷ vs)
        ≡ latest_patch_from semver major_minor (newer_patch semver major_minor cur v a) vs
  unfolding latest_patch_from
  latest_patch_from-cons major_minor cur v a vs made = rw (made, latest_patch_from)

  newer_patch-first :
      (major_minor v : String) (a : semver.Version)
      → semver.make v ≡ some a
      → newer_patch semver major_minor "" v a ≡ (if in_release major_minor v then v else "")
  unfolding newer_patch
  newer_patch-first major_minor v a made = ground arith

  -- The loop, from a version of the release on.
  latest_patch_from-IsLatest :
      (major_minor cur : String) (vs : List String)
      → in_release major_minor cur ≡ true
      → is_empty cur ≡ false
      → All Parses vs
      → let r = latest_patch_from semver major_minor cur vs in
        IsLatest major_minor r vs × (at_least r cur ≡ true) × ((r ≡ cur) ⊎ (elem r vs ≡ true))
  latest_patch_from-IsLatest major_minor cur [] m n h =
      unfold latest_patch_from in
      (record { matches = m; nonempty = n; newest = tt }, at_least_refl cur, inl refl)
  latest_patch_from-IsLatest major_minor cur (v ∷ vs) m n h =
      let (a, made, full) = h.0 in
      let c = newer_patch semver major_minor cur v a in
      let (m', n', up, over, from) = newer_patch-IsLatest major_minor cur v a made full m n in
      let (best, above, source) = latest_patch_from-IsLatest major_minor c vs m' n' h.1 in
      let r = latest_patch_from semver major_minor c vs in
      subst
        (λ t.
          IsLatest major_minor t (v ∷ vs)
          × (at_least t cur ≡ true)
          × ((t ≡ cur) ⊎ (elem t (v ∷ vs) ≡ true)))
        (sym (latest_patch_from-cons major_minor cur v a vs made))
        (
          record {
            matches = best.matches;
            nonempty = best.nonempty;
            newest = (
              λ t.
                  laws.ge_trans (version_of semver r) (version_of semver c) (version_of semver v)
                    above (over t),
              best.newest,
            );
          },
          laws.ge_trans (version_of semver r) (version_of semver c) (version_of semver cur) above
              up,
          ground (arith, source, from, eq_iff r v),
        )

  abbrev Outcome : String → String → List String → Type 0
  Outcome major_minor r vs =
      ((any (in_release major_minor) vs ≡ false) × (r ≡ ""))
      ⊎ ((any (in_release major_minor) vs ≡ true) × (elem r vs ≡ true) × IsLatest major_minor r vs)

  Outcome-cons_out :
      (major_minor r v : String) (vs : List String)
      → in_release major_minor v ≡ false
      → Outcome major_minor r vs
      → Outcome major_minor r (v ∷ vs)
  Outcome-cons_out major_minor r v vs f (inl (none_of, empty)) = inl (ground (arith, f), empty)
  Outcome-cons_out major_minor r v vs f (inr (some_of, from, best)) = inr (
    ground (arith, f),
    ground (arith, from),
    record {
      matches = best.matches;
      nonempty = best.nonempty;
      newest = (λ t. cc (f, t), best.newest);
    },
  )

  Outcome-cons_in :
      (major_minor v : String) (vs : List String)
      → in_release major_minor v ≡ true
      → is_empty v ≡ false
      → All Parses vs
      → Outcome major_minor (latest_patch_from semver major_minor v vs) (v ∷ vs)
  Outcome-cons_in major_minor v vs t full h =
      let (best, above, source) = latest_patch_from-IsLatest major_minor v vs t full h in
      inr (
        ground (arith, t),
        ground (arith, source, eq_iff (latest_patch_from semver major_minor v vs) v),
        record {
          matches = best.matches;
          nonempty = best.nonempty;
          newest = (λ _. above, best.newest);
        },
      )

  latest_patch_from-Outcome :
      (major_minor : String) (vs : List String)
      → All Parses vs
      → Outcome major_minor (latest_patch_from semver major_minor "" vs) vs
  latest_patch_from-Outcome major_minor [] h = unfold latest_patch_from in inl (refl, refl)
  latest_patch_from-Outcome major_minor (v ∷ vs) h =
      let (a, made, full) = h.0 in
      let start = newer_patch-first major_minor v a made in
      let step = latest_patch_from-cons major_minor "" v a vs made in
      elim (Bool-cases (in_release major_minor v)) [
        | inl t ↦
            subst (λ r. Outcome major_minor r (v ∷ vs)) (cc (step, start, t))
              (Outcome-cons_in major_minor v vs t full h.1)
        | inr f ↦
            subst (λ r. Outcome major_minor r (v ∷ vs)) (cc (step, start, f))
              (Outcome-cons_out major_minor (latest_patch_from semver major_minor "" vs) v vs f
                (latest_patch_from-Outcome major_minor vs h.1))
      ]

  -- `GetLatestPatchVersion`, on versions that all parse and a version library that keeps its
  -- laws: the result is "" where no version of the list belongs to the release; otherwise it is a
  -- version of the list, in the release, and at least as new as each version of the release in
  -- the list.
  pub get_latest_patch_version_newest :
      (major_minor : String) (vs : List String)
      → All Parses vs
      → let r = get_latest_patch_version semver major_minor vs in
        ((any (in_release major_minor) vs ≡ false) × (r ≡ ""))
        ⊎ ((any (in_release major_minor) vs ≡ true)
            × (elem r vs ≡ true)
            × IsLatest major_minor r vs)
  unfolding get_latest_patch_version
  get_latest_patch_version_newest major_minor vs h = latest_patch_from-Outcome major_minor vs h
