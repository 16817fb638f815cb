-- ===== src/Validation/Pools/Sequence/Checked.antt =====
-- What the success of `validateAgentPoolProfiles` shows.
use aks_engine.Common.{
  ℕ, ◌≡◌, refl, sym, ap, ◌∙◌, String, Bool, true, false, none, List, [], ◌∷◌, map, elem, All,
  IsDistinct, AreNew, AreNew-cons, ◌==◌, string_eq, is_empty, Result, ok, err, ◌>>=◌, bind-eq-ok,
  Bool-cases, inl, inr, arith,
}
use aks_engine.Versions.Semver.{Semver}
use aks_engine.Versions.Select.{kubernetes}
use aks_engine.Validation.{ValidationError, Check, refuse_if, only_if}
use aks_engine.Validation.Names.{
  is_pool_name, validate_pool_name, validate_unique_ports, validate_dns_prefix,
}
use aks_engine.Validation.Pools.{
  PoolProfile, ClusterDefinition, windows, validate_orchestrator_specific_properties,
  checked_prefix, checked_ports, checked_disks, kubernetes_only,
}
use aks_engine.Validation.Pools.Sequence.{
  validate_name_and_flags, validate_until_image, validate_after_image, validate_windows, continue,
  validate_pools, validate_agent_pool_profiles, first_profile,
}

-- A check that is followed by more has passed, if the whole succeeds.
then-ok {ℓ} :
    {A : Type ℓ} (m : Check) (k : Result ValidationError A) (b : A)
    → (m >>= λ _. k) ≡ ok b
    → (m ≡ ok tt) × (k ≡ ok b)
then-ok (ok tt) k b h = (refl, h)
then-ok (err e) k b h = absurd (cc h)

not_refused : (b : Bool) (e : ValidationError) → refuse_if b e ≡ ok tt → b ≡ false
not_refused true e h = absurd (cc h)
not_refused false e h = refl

only-ok : (b : Bool) (check : Check) → only_if b check ≡ ok tt → b ≡ true → check ≡ ok tt
only-ok true check h t = h
only-ok false check h t = absurd (cc t)

module _ (semver : Semver) (equal_fold : String → String → Bool) (url_parses : String → Bool) where
  flags-lem :
      (c : ClusterDefinition) (seen : List String) (p : PoolProfile)
      → validate_name_and_flags semver equal_fold url_parses c seen p ≡ ok tt
      → (is_pool_name p.name ≡ true) × (elem p.name seen ≡ false)
  unfolding validate_name_and_flags validate_pool_name
  flags-lem c seen p h = (ground (arith, h), ground (arith, h))

  -- The checks change the ports at most.
  abbrev pub SamePool : PoolProfile → PoolProfile → Type 0
  SamePool p p' =
      (p'.name ≡ p.name)
      × (p'.image_ref ≡ p.image_ref)
      × (p'.availability_profile ≡ p.availability_profile)
      × (p'.os_type ≡ p.os_type)

  checked_ports-SamePool :
      (p p' : PoolProfile) (ports : List ℕ) → checked_ports p ports ≡ ok p' → SamePool p p'
  checked_ports-SamePool p p' [] h = (cc h, cc h, cc h, cc h)
  checked_ports-SamePool p p' (port ∷ ports) h =
      let (u, checked, e) =
        bind-eq-ok (validate_unique_ports (port ∷ ports) p.name) (λ _. ok p) p' h in
      let q : p' ≡ p = cc e in rw q (refl, refl, refl, refl)

  checked_prefix-SamePool : (p p' : PoolProfile) → checked_prefix p ≡ ok p' → SamePool p p'
  checked_prefix-SamePool p p' h = elim (Bool-cases (is_empty p.dns_prefix)) [
    | inl t ↦ let q : p' ≡ p = ground (arith, h, t) in rw q (refl, refl, refl, refl)
    | inr f ↦
        let (u, checked, e) =
          bind-eq-ok (validate_dns_prefix p.dns_prefix) (λ _. checked_ports p p.ports) p'
            (rw f at h) in
        checked_ports-SamePool p p' p.ports e
  ]

  specific-SamePool :
      (orchestrator_type : String) (p p' : PoolProfile)
      → validate_orchestrator_specific_properties orchestrator_type p ≡ ok p'
      → SamePool p p'
  unfolding validate_orchestrator_specific_properties
  specific-SamePool orchestrator_type p p' h =
      let disks : PoolProfile → Result ValidationError PoolProfile =
        λ checked. checked_disks p >>= λ _. ok checked in
      let (passed, h₁) =
        then-ok (only_if (orchestrator_type == kubernetes) (kubernetes_only p))
          (checked_prefix p >>= disks) p' h in
      let (q, prefixed, h₂) = bind-eq-ok (checked_prefix p) disks p' h₁ in
      let (sized, e) = then-ok (checked_disks p) (ok q) p' h₂ in
      let same : p' ≡ q = cc e in rw same (checked_prefix-SamePool p q prefixed)

  pub until_image-lem :
      (c : ClusterDefinition) (seen : List String) (p p' : PoolProfile)
      → validate_until_image semver equal_fold url_parses c seen p ≡ ok p'
      → (is_pool_name p.name ≡ true) × (elem p.name seen ≡ false) × SamePool p p'
  unfolding validate_until_image
  until_image-lem c seen p p' h =
      let (flags, specific) =
        then-ok (validate_name_and_flags semver equal_fold url_parses c seen p)
          (validate_orchestrator_specific_properties c.orchestrator_type p) p' h in
      let (named, new) = flags-lem c seen p flags in
      (named, new, specific-SamePool c.orchestrator_type p p' specific)

  -- What the checks of a pool without an image reference have shown.
  pub record Passed (c : ClusterDefinition) (is_update : Bool) (first : String) (p : PoolProfile)
      : Type 0 where
    pub named : is_pool_name p.name ≡ true
    pub same_profile :
        (c.orchestrator_type == kubernetes) ≡ true → (p.availability_profile == first) ≡ true
    pub windows_checked :
        (p.os_type == windows) ≡ true
        → validate_windows semver equal_fold url_parses c is_update ≡ ok tt

  after_image-lem :
      (c : ClusterDefinition) (is_update : Bool) (first : String) (p : PoolProfile)
      → validate_after_image semver equal_fold url_parses c is_update first p ≡ ok tt
      → ((c.orchestrator_type == kubernetes) ≡ true → (p.availability_profile == first) ≡ true)
        × ((p.os_type == windows) ≡ true
            → validate_windows semver equal_fold url_parses c is_update ≡ ok tt)
  unfolding validate_after_image
  after_image-lem c is_update first p h = (λ t. ground (arith, h, t), λ t. ground (arith, h, t))

  -- The pools of a successful loop, if none of them has an image reference.
  pools-Passed :
      (c : ClusterDefinition) (is_update : Bool) (first : String) (seen : List String)
      (ps out : List PoolProfile)
      → validate_pools semver equal_fold url_parses c is_update first seen ps ≡ ok out
      → All (λ p. p.image_ref ≡ none) ps
      → All (Passed c is_update first) ps
        × AreNew seen (map (λ p. p.name) ps)
        × IsDistinct (map (λ p. p.name) ps)
  unfolding validate_pools
  pools-Passed c is_update first seen [] out h no_image = (tt, tt, tt)
  pools-Passed c is_update first seen (p ∷ ps) out h no_image =
      let later =
        validate_pools semver equal_fold url_parses c is_update first (p.name ∷ seen) ps in
      let more : PoolProfile → Result ValidationError (List PoolProfile) =
        λ q. continue semver equal_fold url_parses c is_update first q q.image_ref ps later in
      let (q, checked, h₁) =
        bind-eq-ok (validate_until_image semver equal_fold url_parses c seen p) more out h in
      let (named, new, same) = until_image-lem c seen p q checked in
      let h₂ : continue semver equal_fold url_parses c is_update first q none ps later ≡ ok out =
        ap (λ i. continue semver equal_fold url_parses c is_update first q i ps later)
          (sym (same.1 ∙ no_image.0))
        ∙ h₁ in
      let (after, h₃) =
        then-ok (validate_after_image semver equal_fold url_parses c is_update first q)
          (later >>= λ rest. ok (q ∷ rest)) out h₂ in
      let (rest, succeeded, e) = bind-eq-ok later (λ rest. ok (q ∷ rest)) out h₃ in
      let (passed, fresh, distinct) =
        pools-Passed c is_update first (p.name ∷ seen) ps rest succeeded no_image.1 in
      let (still, other) = AreNew-cons seen (map (λ p. p.name) ps) p.name fresh in
      let (profile, on_windows) = after_image-lem c is_update first q after in
      (
        (
          record {
            named = named;
            same_profile = rw same.2 at profile;
            windows_checked = rw same.3 at on_windows;
          },
          passed,
        ),
        (new, still),
        (other, distinct),
      )

  -- A definition without image references that `validateAgentPoolProfiles` accepts has pools of
  -- different names, each of which is a letter and at most eleven letters and digits in lower case; in
  -- a Kubernetes cluster all have the availability profile of the first one, and if one of them is for
  -- Windows then the version and the Windows profile have passed their checks.
  pub validate_agent_pool_profiles-Passed :
      (c : ClusterDefinition) (is_update : Bool) (pools out : List PoolProfile)
      → validate_agent_pool_profiles semver equal_fold url_parses c is_update pools ≡ ok out
      → All (λ p. p.image_ref ≡ none) pools
      → All (Passed c is_update (first_profile pools)) pools × IsDistinct (map (λ p. p.name) pools)
  unfolding validate_agent_pool_profiles
  validate_agent_pool_profiles-Passed c is_update pools out h no_image =
      let (passed, new, distinct) =
        pools-Passed c is_update (first_profile pools) [] pools out h no_image in
      (passed, distinct)
