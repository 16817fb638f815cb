-- ===== src/Validation/Pools/Sequence/Unchecked.antt =====
-- What the early return of `validateAgentPoolProfiles` leaves out.
use aks_engine.Common.{
  ◌≡◌, refl, sym, ap, ◌∙◌, String, Bool, Option, none, some, List, [], ◌∷◌, ◌++◌, Result, ok, err,
  ◌>>=◌,
}
use mathlib.Core.List.{append_assoc}
use aks_engine.Versions.Semver.{Semver}
use aks_engine.Validation.{ValidationError, Check}
use aks_engine.Validation.Names.{validate_image_name_and_group}
use aks_engine.Validation.Pools.{PoolProfile, ClusterDefinition}
use aks_engine.Validation.Pools.Sequence.{
  validate_until_image, validate_after_image, continue, validate_pools,
  validate_agent_pool_profiles, first_profile,
}
use aks_engine.Validation.Pools.Sequence.Checked.{until_image-lem}

-- The same result, with more pools behind those that were accepted.
abbrev pub followed :
    List PoolProfile
    → Result ValidationError (List PoolProfile)
    → Result ValidationError (List PoolProfile)
followed ps (ok accepted) = ok (accepted ++ ps)
followed ps (err e) = err e

followed-check :
    (m : Check) (ps accepted all : List PoolProfile)
    → all ≡ accepted ++ ps
    → (m >>= λ _. ok all) ≡ followed ps (m >>= λ _. ok accepted)
followed-check (ok _) ps accepted all e = ap ok e
followed-check (err x) ps accepted all e = refl

followed-cons :
    (q : PoolProfile) (ps : List PoolProfile) (later : Result ValidationError (List PoolProfile))
    → (followed ps later >>= λ rest. ok (q ∷ rest)) ≡ followed ps (later >>= λ rest. ok (q ∷ rest))
followed-cons q ps (ok rest) = refl
followed-cons q ps (err e) = refl

followed-later :
    (m : Check) (q : PoolProfile) (ps : List PoolProfile)
    (later : Result ValidationError (List PoolProfile))
    → (m >>= λ _. followed ps later >>= λ rest. ok (q ∷ rest))
      ≡ followed ps (m >>= λ _. later >>= λ rest. ok (q ∷ rest))
followed-later (ok _) q ps later = followed-cons q ps later
followed-later (err e) q ps later = refl

module _ (semver : Semver) (equal_fold : String → String → Bool) (url_parses : String → Bool)
    (c : ClusterDefinition) (is_update : Bool) (p : PoolProfile) (name group : String)
    (image : p.image_ref ≡ some (name, group)) where
  continue-followed :
      (first : String) (q : PoolProfile) (o : Option (String × String))
      (before ps : List PoolProfile) (later later' : Result ValidationError (List PoolProfile))
      → later' ≡ followed ps later
      → continue semver equal_fold url_parses c is_update first q o (before ++ p ∷ ps) later'
        ≡ followed ps
            (continue semver equal_fold url_parses c is_update first q o (before ++ p ∷ []) later)
  continue-followed first q (some (n, g)) before ps later later' e =
      followed-check (validate_image_name_and_group n g) ps (q ∷ (before ++ p ∷ []))
        (q ∷ (before ++ p ∷ ps)) (ap (λ l. q ∷ l) (rw append_assoc refl))
  continue-followed first q none before ps later later' e =
      let after = validate_after_image semver equal_fold url_parses c is_update first q in
      ap (λ l. after >>= λ _. l >>= λ rest. ok (q ∷ rest)) e ∙ followed-later after q ps later

  -- The pool with the image reference, by what its checks up to there return.
  at_image :
      (first : String) (seen : List String) (ps : List PoolProfile)
      (later later' : Result ValidationError (List PoolProfile))
      (r : Result ValidationError PoolProfile)
      → validate_until_image semver equal_fold url_parses c seen p ≡ r
      → (r >>= λ q. continue semver equal_fold url_parses c is_update first q q.image_ref ps later')
        ≡ followed ps (
            r >>= λ q.
            continue semver equal_fold url_parses c is_update first q q.image_ref [] later)
  at_image first seen ps later later' (err x) e = refl
  at_image first seen ps later later' (ok q) e =
      let (named, new, same) = until_image-lem semver equal_fold url_parses c seen p q e in
      let found : q.image_ref ≡ some (name, group) = same.1 ∙ image in
      let go : Option (String × String)
          → List PoolProfile
          → Result ValidationError (List PoolProfile)
          → Result ValidationError (List PoolProfile) =
        λ o l k. continue semver equal_fold url_parses c is_update first q o l k in
      ap (λ o. go o ps later') found
      ∙ followed-check (validate_image_name_and_group name group) ps (q ∷ []) (q ∷ ps) refl
      ∙ ap (λ o. followed ps (go o [] later)) (sym found)

  pools-followed :
      (first : String) (seen : List String) (before ps : List PoolProfile)
      → validate_pools semver equal_fold url_parses c is_update first seen (before ++ p ∷ ps)
        ≡ followed ps
            (validate_pools semver equal_fold url_parses c is_update first seen (before ++ p ∷ []))
  unfolding validate_pools
  pools-followed first seen [] ps = at_image first seen ps _ _ _ refl
  pools-followed first seen (b ∷ before) ps =
      step (validate_until_image semver equal_fold url_parses c seen b)
        (pools-followed first (b.name ∷ seen) before ps)
    where
      step :
          (r : Result ValidationError PoolProfile)
          → validate_pools semver equal_fold url_parses c is_update first
              (b.name ∷ seen)
              (before ++ p ∷ ps)
            ≡ followed ps (
                validate_pools semver equal_fold url_parses c is_update first
                  (b.name ∷ seen)
                  (before ++ p ∷ []))
          → (r >>= λ q.
              continue semver equal_fold url_parses c is_update first q q.image_ref
                (before ++ p ∷ ps)
                (validate_pools semver equal_fold url_parses c is_update first
                  (b.name ∷ seen)
                  (before ++ p ∷ ps)))
            ≡ followed ps (
                r >>= λ q.
                continue semver equal_fold url_parses c is_update first q q.image_ref
                  (before ++ p ∷ [])
                  (validate_pools semver equal_fold url_parses c is_update first
                    (b.name ∷ seen)
                    (before ++ p ∷ [])))
      step (ok q) ih = continue-followed first q q.image_ref before ps _ _ ih
      step (err x) ih = refl

  -- Whatever pools stand before a pool with an image reference, `validateAgentPoolProfiles` decides
  -- as if that pool were the last: the pools behind it are accepted as they are if the others pass,
  -- and otherwise the error is the same.
  pub validate_agent_pool_profiles-followed :
      (before ps : List PoolProfile)
      → validate_agent_pool_profiles semver equal_fold url_parses c is_update (before ++ p ∷ ps)
        ≡ followed ps (
            validate_agent_pool_profiles semver equal_fold url_parses c is_update
              (before ++ p ∷ []))
  unfolding validate_agent_pool_profiles
  validate_agent_pool_profiles-followed [] ps = pools-followed (first_profile (p ∷ [])) [] [] ps
  validate_agent_pool_profiles-followed (b ∷ before) ps =
      pools-followed (first_profile (b ∷ [])) [] (b ∷ before) ps
