-- ===== src/Versions/Between.antt =====
-- `GetVersionsBetween` of pkg/api/common/versions.go is the filter by both bounds.
use aks_engine.Common.{
  String, ◌≡◌, refl, Bool, true, false, ◌&&◌, List, [], ◌∷◌, arith, Bool-cases, inl, inr,
  if◌then◌else◌, ◌==◌, string_eq, eq_iff, filter, elem, elem-append, elem-filter, IsDistinct,
  IsDistinct-filter,
}
use aks_engine.Versions.Semver.{Semver}
use aks_engine.Versions.Select.{
  version_of, passes_gt, passes_lt, get_versions_gt, get_versions_lt, copies, intersect,
  get_versions_between,
}

elem-copies : (v lv : String) (gs : List String) → elem v (copies lv gs) ≡ (v == lv && elem lv gs)
unfolding copies
elem-copies v lv [] = ground arith
elem-copies v lv (g ∷ gs) = ground (arith, elem-copies v lv gs)

elem-intersect :
    (v : String) (ls gs : List String) → elem v (intersect ls gs) ≡ (elem v ls && elem v gs)
unfolding intersect
elem-intersect v [] gs = refl
elem-intersect v (l ∷ ls) gs = ground (
  arith,
  elem-append v (copies l gs) (intersect ls gs),
  elem-copies v l gs,
  elem-intersect v ls gs,
  eq_iff v l,
)

copies_absent : (lv : String) (gs : List String) → elem lv gs ≡ false → copies lv gs ≡ []
unfolding copies
copies_absent lv [] h = refl
copies_absent lv (g ∷ gs) h = ground (arith, copies_absent lv gs)

copies_once :
    (lv : String) (gs : List String) → IsDistinct gs → elem lv gs ≡ true → copies lv gs ≡ lv ∷ []
unfolding copies
copies_once lv [] d h = ground arith
copies_once lv (g ∷ gs) d h = elim (Bool-cases (lv == g)) [
  | inl t ↦ let q : lv ≡ g = (eq_iff lv g).0 t in rw t (ground (arith, copies_absent lv gs, q, d.0))
  | inr f ↦ rw f (copies_once lv gs d.1 (ground (arith, f, h)))
]

intersect-eq-filter :
    (ls gs : List String) → IsDistinct gs → intersect ls gs ≡ filter (λ v. elem v gs) ls
unfolding intersect
intersect-eq-filter [] gs d = refl
intersect-eq-filter (l ∷ ls) gs d = elim (Bool-cases (elem l gs)) [
  | inl t ↦ rw (t, copies_once l gs d t, intersect-eq-filter ls gs d)
  | inr f ↦ rw (f, copies_absent l gs f, intersect-eq-filter ls gs d)
]

-- Filtering by one test, and then by membership in what another test keeps, is filtering by both.
filter_twice :
    (p q : String → Bool) (zs vs : List String)
    → ((v : String) → elem v vs ≡ true → elem v zs ≡ q v)
    → filter (λ v. elem v zs) (filter p vs) ≡ filter (λ v. p v && q v) vs
filter_twice p q zs [] h = refl
filter_twice p q zs (v ∷ vs) h =
    let rest = filter_twice p q zs vs (λ w m. h w (ground (arith, m))) in
    let here : elem v zs ≡ q v = h v (ground (arith, eq_iff v v)) in
    elim (Bool-cases (p v)) [ inl t ↦ rw t (ground (arith, rest, here)) | inr f ↦ rw f rest ]

module _ (semver : Semver) where
  abbrev effective_pre : String → Bool → Bool
  effective_pre version_min pre_releases =
      if semver.is_pre (version_of semver version_min) then true else pre_releases

  -- The test that one version passes: within both bounds, and no pre-release unless these are
  -- asked for or the lower bound is one.
  abbrev pub within : String → String → Bool → Bool → String → Bool
  within version_min version_max inclusive pre_releases v =
      let pre = effective_pre version_min pre_releases in
      passes_lt semver (version_of semver version_max) inclusive pre (version_of semver v)
      && passes_gt semver (version_of semver version_min) inclusive pre (version_of semver v)

  -- A version is in the result of `GetVersionsBetween` exactly when it is in the given list and
  -- passes both bounds, whether or not the list has duplicates.
  pub elem-get_versions_between :
      (versions : List String) (version_min version_max : String) (inclusive pre_releases : Bool)
      (v : String)
      → elem v (get_versions_between semver versions version_min version_max inclusive pre_releases)
        ≡ (elem v versions && within version_min version_max inclusive pre_releases v)
  unfolding get_versions_between get_versions_gt get_versions_lt
  elem-get_versions_between versions lo hi inclusive pre_releases v =
      let pre = effective_pre lo pre_releases in
      let above = λ (w : String).
        passes_gt semver (version_of semver lo) inclusive pre (version_of semver w) in
      let below = λ (w : String).
        passes_lt semver (version_of semver hi) inclusive pre (version_of semver w) in
      ground (
        arith,
        elem-intersect v (filter below versions) (filter above versions),
        elem-filter above v versions,
        elem-filter below v versions,
      )

  -- On a list with no duplicates `GetVersionsBetween`, a nested loop over two filtered lists, is
  -- the filter of the list by both bounds, in the order of the list.
  pub get_versions_between-eq-filter :
      (versions : List String) (version_min version_max : String) (inclusive pre_releases : Bool)
      → IsDistinct versions
      → get_versions_between semver versions version_min version_max inclusive pre_releases
        ≡ filter (within version_min version_max inclusive pre_releases) versions
  unfolding get_versions_between get_versions_gt get_versions_lt
  get_versions_between-eq-filter versions lo hi inclusive pre_releases d =
      let pre = effective_pre lo pre_releases in
      let above = λ (w : String).
        passes_gt semver (version_of semver lo) inclusive pre (version_of semver w) in
      let below = λ (w : String).
        passes_lt semver (version_of semver hi) inclusive pre (version_of semver w) in
      rw
        (intersect-eq-filter (filter below versions) (filter above versions)
          (IsDistinct-filter above versions d))
        (filter_twice below above (filter above versions) versions
          (λ w m. rw elem-filter (rw m refl)))
