-- ===== src/Transform/Upgrade/Judged.antt =====
-- The verdict on one resource in `NormalizeResourcesForK8sMasterUpgrade`, by its type.
use aks_engine.Common.{
  ◌≡◌, refl, eq_iff, sym, ◌∙◌, String, Bool, true, not, ◌||◌, if◌then◌else◌, ◌==◌, string_eq,
  contains, ◌>>=◌, ok, bind-eq-ok, Bool-cases, inl, inr, arith,
}
use aks_engine.Transform.Json.{Json, Fields, Outcome, get, is_set, as_map}
use aks_engine.Transform.Dependencies.{
  nsg_resource_type, vnet_resource_type, lb_resource_type, vm_resource_type, vm_extension_type,
  nic_resource_type, vmss_resource_type, master_prefix,
}
use aks_engine.Transform.Upgrade.Same.{SameFields, remove_nsg-SameFields, attach-SameFields}
use aks_engine.Transform.Upgrade.{
  PreservedPools, pool_name_of, preserves, stay, upgrade_lb, upgrade_nic, upgrade_vm, is_nil,
  pool_tag, vm_stays, extension_stays, remove_nsg_dependency, attach_master_disk, upgrade_kind,
}

module _ (sprint : Json → String) where
  -- By the type of a resource: security groups go; the network interfaces of the agents go if no set
  -- of pools is given; machines and extensions of the agents go unless their pool is preserved.
  abbrev pub stays_kind : PreservedPools → String → String → Json → Bool
  stays_kind pools kind name tag =
      if kind == nic_resource_type
      then contains name master_prefix || not (is_nil pools)
      else if kind == vm_resource_type
      then vm_stays sprint pools name tag
      else if kind == vm_extension_type
      then extension_stays sprint pools name
      else not (kind == nsg_resource_type)

  unfoldable pub Judged : PreservedPools → String → String → Fields → Fields → Bool → Type 0
  Judged pools kind name m m' b =
      (b ≡ stays_kind pools kind name (pool_tag (as_map (get "tags" m)))) × SameFields m m'

  stay-Judged :
      (name : String) (m m' : Fields) (b : Bool)
      → (remove_nsg_dependency name m >>= stay) ≡ ok (m', b)
      → (b ≡ true) × SameFields m m'
  stay-Judged name m m' b h =
      let (m₁, done, e) = bind-eq-ok (remove_nsg_dependency name m) stay (m', b) h in
      let same : m' ≡ m₁ = cc e in (cc e, rw same (remove_nsg-SameFields name m m₁ done))

  upgrade_lb-Judged :
      (name : String) (m m' : Fields) (b : Bool)
      → upgrade_lb sprint name m ≡ ok (m', b)
      → (b ≡ true) × SameFields m m'
  upgrade_lb-Judged name m m' b h =
      elim (Bool-cases (contains name "variables('masterInternalLbName')")) [
        | inl internal ↦ stay-Judged name m m' b (rw internal at h)
        | inr other ↦
            let same : m' ≡ m = cc (rw other at h) in (cc (rw other at h), rw same (λ k d p. refl))
      ]

  upgrade_nic-Judged :
      (pools : PreservedPools) (name : String) (m m' : Fields) (b : Bool)
      → upgrade_nic sprint pools name m ≡ ok (m', b)
      → (b ≡ (contains name master_prefix || not (is_nil pools))) × SameFields m m'
  upgrade_nic-Judged pools name m m' b h =
      let judge : Fields → Outcome (Fields × Bool) =
        λ m₁. ok (m₁, contains name master_prefix || not (is_nil pools)) in
      let (m₁, done, e) = bind-eq-ok (remove_nsg_dependency name m) judge (m', b) h in
      let same : m' ≡ m₁ = cc e in (cc e, rw same (remove_nsg-SameFields name m m₁ done))

  upgrade_vm-Judged :
      (is_managed : Bool) (pools : PreservedPools) (name : String) (m m' : Fields) (b : Bool)
      → upgrade_vm sprint is_managed pools name m ≡ ok (m', b)
      → (b ≡ vm_stays sprint pools name (pool_tag (as_map (get "tags" m)))) × SameFields m m'
  upgrade_vm-Judged is_managed pools name m m' b h =
      elim (Bool-cases (contains name master_prefix)) [
        | inl master ↦
            let judge : Fields → Outcome (Fields × Bool) = λ m₁. ok (
              m₁,
              not (is_set (pool_tag (as_map (get "tags" m₁))))
                  || true
                  || preserves pools (pool_name_of sprint (pool_tag (as_map (get "tags" m₁)))),
            ) in
            let (m₁, done, e) =
              bind-eq-ok (attach_master_disk is_managed m) judge (m', b) (rw master at h) in
            let same : m' ≡ m₁ = cc e in
            let unchanged = attach-SameFields is_managed m m₁ done in
            let tags : get "tags" m₁ ≡ get "tags" m = unchanged "tags" refl refl in
            (rw (master, ← tags) (cc e), rw same unchanged)
        | inr other ↦
            let same : m' ≡ m = cc (rw other at h) in (cc (rw other at h), rw same (λ k d p. refl))
      ]

  -- The other types stay.
  other_stays :
      (pools : PreservedPools) (kind other name : String) (tag : Json)
      → (kind == other) ≡ true
      → stays_kind pools other name tag ≡ true
      → true ≡ stays_kind pools kind name tag
  other_stays pools kind other name tag e h =
      let q : kind ≡ other = (eq_iff kind other).0 e in rw q (sym h)

  networks_stay :
      (pools : PreservedPools) (kind name : String) (tag : Json)
      → (kind == vmss_resource_type || kind == vnet_resource_type) ≡ true
      → true ≡ stays_kind pools kind name tag
  networks_stay pools kind name tag t = elim (Bool-cases (kind == vmss_resource_type)) [
    | inl e ↦ other_stays pools kind vmss_resource_type name tag e refl
    | inr n ↦ other_stays pools kind vnet_resource_type name tag (rw n at t) refl
  ]

  pub upgrade_kind-Judged :
      (is_managed : Bool) (pools : PreservedPools) (kind name : String) (m m' : Fields) (b : Bool)
      → upgrade_kind sprint is_managed pools kind name m ≡ ok (m', b)
      → Judged pools kind name m m' b
  unfolding upgrade_kind Judged
  upgrade_kind-Judged is_managed pools kind name m m' b h =
      let tag = pool_tag (as_map (get "tags" m)) in
      elim (Bool-cases (kind == vmss_resource_type || kind == vnet_resource_type)) [
        | inl t ↦
            let (c, same) = stay-Judged name m m' b (rw t at h) in
            (c ∙ networks_stay pools kind name tag t, same)
        | inr not_network ↦ elim (Bool-cases (kind == lb_resource_type)) [
          | inl lb ↦
              let (c, same) = upgrade_lb-Judged name m m' b (rw (not_network, lb) at h) in
              (c ∙ other_stays pools kind lb_resource_type name tag lb refl, same)
          | inr not_lb ↦ elim (Bool-cases (kind == nic_resource_type)) [
            | inl nic ↦
                rw nic (upgrade_nic-Judged pools name m m' b (rw (not_network, not_lb, nic) at h))
            | inr not_nic ↦ elim (Bool-cases (kind == vm_resource_type)) [
              | inl vm ↦
                  rw (not_nic, vm)
                    (upgrade_vm-Judged is_managed pools name m m' b
                      (rw (not_network, not_lb, not_nic, vm) at h))
              | inr not_vm ↦
                  let rest : (if kind == vm_extension_type
                        then ok (m, extension_stays sprint pools name)
                        else ok (m, not (kind == nsg_resource_type)))
                      ≡ ok (m', b) =
                    rw (not_network, not_lb, not_nic, not_vm) at h in
                  let same : m' ≡ m = ground (arith, rest) in
                  (rw (not_nic, not_vm) (ground (arith, rest)), rw same (λ k d p. refl))
            ]
          ]
        ]
      ]
