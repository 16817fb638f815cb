-- ===== src/Transform/Upgrade/Stays.antt =====
-- Which resources `NormalizeResourcesForK8sMasterUpgrade` leaves in a template.
use aks_engine.Common.{
  ◌≡◌, refl, sym, String, Bool, true, false, Option, none, some, List, [], ◌∷◌, if◌then◌else◌,
  string_eq, ◌>>=◌, ok, bind-eq-ok, arith,
}
use aks_engine.Transform.Json.{Json, obj, Fields, Outcome, get, as_map, as_string}
use aks_engine.Transform.Dependencies.{name_field, type_field}
use aks_engine.Transform.Upgrade.Same.{SameFields, SameResource}
use aks_engine.Transform.Upgrade.Judged.{Judged, stays_kind, upgrade_kind-Judged}
use aks_engine.Transform.Upgrade.{
  PreservedPools, pool_tag, upgrade_named, upgrade_map, normalize_resources_for_k8s_master_upgrade,
}

module _ (sprint : Json → String) where
  abbrev stays_named : PreservedPools → Option String → Option String → Json → Bool
  stays_named pools (some kind) (some name) tag = stays_kind sprint pools kind name tag
  stays_named pools kind name tag = true

  abbrev stays_map : PreservedPools → Option Fields → Bool
  stays_map pools none = true
  stays_map pools (some m) =
      stays_named pools (as_string (get type_field m)) (as_string (get name_field m))
        (pool_tag (as_map (get "tags" m)))

  -- Whether a resource stays: one without a type or a name always does.
  abbrev pub stays : PreservedPools → Json → Bool
  stays pools r = stays_map pools (as_map r)

  -- The resources that stay, in their order, each with all its fields but the dependencies and the
  -- properties.
  pub data Upgraded (pools : PreservedPools) : List Json → List Json → Type 0 where
    all_done : Upgraded pools [] []
    stayed :
        {r r' : Json} {rs rs' : List Json}
        → stays pools r ≡ true
        → SameResource r r'
        → Upgraded pools rs rs'
        → Upgraded pools (r ∷ rs) (r' ∷ rs')
    gone :
        {r : Json} {rs rs' : List Json}
        → stays pools r ≡ false
        → Upgraded pools rs rs'
        → Upgraded pools (r ∷ rs) rs'

  upgrade_named-Judged :
      (is_managed : Bool) (pools : PreservedPools) (kind name : Option String) (m m' : Fields)
      (b : Bool)
      → upgrade_named sprint is_managed pools kind name m ≡ ok (m', b)
      → (b ≡ stays_named pools kind name (pool_tag (as_map (get "tags" m)))) × SameFields m m'
  unfolding Judged
  upgrade_named-Judged is_managed pools (some kind) (some name) m m' b h =
      upgrade_kind-Judged sprint is_managed pools kind name m m' b h
  upgrade_named-Judged is_managed pools (some kind) none m m' b h =
      let same : m' ≡ m = cc h in (cc h, rw same (λ k d p. refl))
  upgrade_named-Judged is_managed pools none name m m' b h =
      let same : m' ≡ m = cc h in (cc h, rw same (λ k d p. refl))

  upgrade_map-Judged :
      (is_managed : Bool) (pools : PreservedPools) (r r' : Json) (b : Bool)
      → upgrade_map sprint is_managed pools r (as_map r) ≡ ok (r', b)
      → (b ≡ stays pools r) × SameResource r r'
  upgrade_map-Judged is_managed pools (obj m) r' b h =
      let kind = as_string (get type_field m) in
      let name = as_string (get name_field m) in
      let wrap : Fields × Bool → Outcome (Json × Bool) = λ v. ok (obj v.0, v.1) in
      let ((m₁, b₁), judged, e) =
        bind-eq-ok (upgrade_named sprint is_managed pools kind name m) wrap (r', b) h in
      let (c, same) = upgrade_named-Judged is_managed pools kind name m m₁ b₁ judged in
      let q : r' ≡ obj m₁ = cc e in (cc (e, c), rw q same)
  upgrade_map-Judged is_managed pools r r' b h = (cc h, cc h)

  upgrade_cons :
      (pools : PreservedPools) (r r' : Json) (rs rs' : List Json) (b : Bool)
      → (b ≡ stays pools r) × SameResource r r'
      → Upgraded pools rs rs'
      → Upgraded pools (r ∷ rs) (if b then r' ∷ rs' else rs')
  upgrade_cons pools r r' rs rs' true (e, same) rest = stayed (sym e) same rest
  upgrade_cons pools r r' rs rs' false (e, same) rest = gone (sym e) rest

  -- A successful `NormalizeResourcesForK8sMasterUpgrade` leaves exactly the resources that stay,
  -- in their order: security groups go; network interfaces of agents go if no set of pools is
  -- given; machines and extensions of agents go unless their pool is preserved; all else stays.
  -- In a resource that stays only the dependencies and the properties may change.
  pub normalize_for_master_upgrade-Upgraded :
      (is_managed : Bool) (pools : PreservedPools) (resources out : List Json)
      → normalize_resources_for_k8s_master_upgrade sprint is_managed pools resources ≡ ok out
      → Upgraded pools resources out
  unfolding normalize_resources_for_k8s_master_upgrade
  normalize_for_master_upgrade-Upgraded is_managed pools [] out h =
      let e : out ≡ [] = cc h in rw e all_done
  normalize_for_master_upgrade-Upgraded is_managed pools (r ∷ rs) out h =
      let more : Json × Bool → Outcome (List Json) = λ here.
        normalize_resources_for_k8s_master_upgrade sprint is_managed pools rs >>= λ rest.
        ok (if here.1 then here.0 ∷ rest else rest) in
      let ((r', b), judged, h₁) =
        bind-eq-ok (upgrade_map sprint is_managed pools r (as_map r)) more out h in
      let (rest, upgraded, e) =
        bind-eq-ok (normalize_resources_for_k8s_master_upgrade sprint is_managed pools rs)
          (λ rest. ok (if b then r' ∷ rest else rest)) out h₁ in
      let q : out ≡ (if b then r' ∷ rest else rest) = ground (arith, e) in
      rw q (
        upgrade_cons pools r r' rs rest b (upgrade_map-Judged is_managed pools r r' b judged)
          (normalize_for_master_upgrade-Upgraded is_managed pools rs rest upgraded))
