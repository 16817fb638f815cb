-- ===== src/Validation/Vnets/Same.antt =====
-- What `validateVNET` shows of the subnets of a cluster.
use aks_engine.Common.{
  ◌≡◌, refl, String, Bool, true, false, not, ◌&&◌, Option, none, some, List, [], ◌∷◌, All, any,
  string_eq, is_empty, ok, ◌>>=◌, bind-eq-ok, arith,
}
use aks_engine.Networks.SubnetIds.{SubnetParts, get_vnet_subnet_id_components}
use aks_engine.Validation.{ValidationError, Check, refuse_if, several_vnets, agent_subnet_missing}
use aks_engine.Validation.Vnets.{
  MasterNetwork, is_custom_vnet, is_same_vnet, parsed_subnet, check_vnets, check_addresses,
  check_custom_vnet, validate_vnet,
}

-- The identifier of a subnet in the network of the given one.
abbrev pub IsInVnet : SubnetParts → String → Type 0
IsInVnet parts id =
    (agent : SubnetParts) × (get_vnet_subnet_id_components id ≡ some agent)
    × (is_same_vnet agent parts ≡ true)

parsed_subnet-some :
    (found : Option SubnetParts) (parts : SubnetParts)
    → parsed_subnet found ≡ ok parts
    → found ≡ some parts
parsed_subnet-some none parts h = absurd (cc h)
parsed_subnet-some (some p) parts h = cc h

not_refused :
    (b : Bool) (e : ValidationError) (u : Unit {0}) → refuse_if (not b) e ≡ ok u → b ≡ true
not_refused true e u h = refl
not_refused false e u h = absurd (cc h)

passes-not : (b : Bool) (e : ValidationError) (u : Unit {0}) → refuse_if b e ≡ ok u → b ≡ false
passes-not true e u h = absurd (cc h)
passes-not false e u h = refl

check_vnets-All :
    (parts : SubnetParts) (ids : List String) (u : Unit {0})
    → check_vnets parts ids ≡ ok u
    → All (IsInVnet parts) ids
unfolding check_vnets
check_vnets-All parts [] u h = tt
check_vnets-All parts (id ∷ ids) u h =
    let same : SubnetParts → Check = λ agent.
      refuse_if (not (is_same_vnet agent parts)) several_vnets >>= λ _. check_vnets parts ids in
    let (agent, found, h₁) =
      bind-eq-ok (parsed_subnet (get_vnet_subnet_id_components id)) same u h in
    let (v, passed, h₂) =
      bind-eq-ok (refuse_if (not (is_same_vnet agent parts)) several_vnets)
        (λ _. check_vnets parts ids) u h₁ in
    (
      (
        agent,
        parsed_subnet-some (get_vnet_subnet_id_components id) agent found,
        not_refused (is_same_vnet agent parts) several_vnets v passed,
      ),
      check_vnets-All parts ids u h₂,
    )

none_custom :
    (ids : List String) → any is_custom_vnet ids ≡ false → All (λ id. is_custom_vnet id ≡ false) ids
none_custom [] h = tt
none_custom (id ∷ ids) h = (ground (arith, h), none_custom ids (ground (arith, h)))

module _ (parses_ip : String → Bool) (parses_cidr : String → Bool) where
  custom-lem :
      (m : MasterNetwork) (ids : List String) (u : Unit {0})
      → check_custom_vnet parses_ip parses_cidr m ids ≡ ok u
      → (parts : SubnetParts) × (get_vnet_subnet_id_components m.vnet_subnet_id ≡ some parts)
        × All (IsInVnet parts) ids
        × ((m.is_scale_sets && is_empty m.agent_vnet_subnet_id) ≡ false)
        × (check_addresses parses_ip parses_cidr m ≡ ok tt)
  unfolding check_custom_vnet
  custom-lem m ids u h =
      let rest : SubnetParts → Check =
        λ parts. check_vnets parts ids >>= λ _. check_addresses parses_ip parses_cidr m in
      let (v, scale_sets, h₁) =
        bind-eq-ok
          (refuse_if (m.is_scale_sets && is_empty m.agent_vnet_subnet_id) agent_subnet_missing)
          (λ _. parsed_subnet (get_vnet_subnet_id_components m.vnet_subnet_id) >>= rest) u h in
      let (parts, found, h₂) =
        bind-eq-ok (parsed_subnet (get_vnet_subnet_id_components m.vnet_subnet_id)) rest u h₁ in
      let (w, same, h₃) =
        bind-eq-ok (check_vnets parts ids) (λ _. check_addresses parses_ip parses_cidr m) u h₂ in
      (
        parts,
        parsed_subnet-some (get_vnet_subnet_id_components m.vnet_subnet_id) parts found,
        check_vnets-All parts ids w same,
        passes-not (m.is_scale_sets && is_empty m.agent_vnet_subnet_id) agent_subnet_missing v
            scale_sets,
        h₃,
      )

  -- The masters' addresses, where the masters are machines of their own.
  abbrev pub HasAddresses : MasterNetwork → Type 0
  HasAddresses m =
      (m.is_scale_sets ≡ false → parses_ip m.first_consecutive_static_ip ≡ true)
      × (is_empty m.vnet_cidr ≡ false → parses_cidr m.vnet_cidr ≡ true)

  addresses-lem :
      (m : MasterNetwork) → check_addresses parses_ip parses_cidr m ≡ ok tt → HasAddresses m
  unfolding check_addresses
  addresses-lem m h = (λ e. ground (arith, h, e), λ e. ground (arith, h, e))

  -- Neither the masters nor the agent pools have a subnet of their own, or the subnets of all agent
  -- pools are in the virtual network of `vnet_subnet_id`. Of the subnet that scale sets of masters
  -- name for agents, only that it is not empty.
  pub data InOneVnet (m : MasterNetwork) (ids : List String) : Type 0 where
    no_custom :
        is_custom_vnet m.vnet_subnet_id ≡ false
        → All (λ id. is_custom_vnet id ≡ false) ids
        → InOneVnet m ids
    all_custom :
        (parts : SubnetParts)
        → get_vnet_subnet_id_components m.vnet_subnet_id ≡ some parts
        → All (IsInVnet parts) ids
        → (m.is_scale_sets && is_empty m.agent_vnet_subnet_id) ≡ false
        → HasAddresses m
        → InOneVnet m ids

  -- In a cluster that `validateVNET` accepts, neither the masters nor the agent pools have a subnet
  -- of their own, or the subnet identifiers of the masters and of each agent pool can be read, and
  -- those of the pools name the subscription, the resource group and the virtual network that the
  -- masters' one names. In that second case masters in scale sets have a text as the subnet of the
  -- agents, of which nothing else is shown; the first static address parses unless the masters are
  -- scale sets, and the address range parses unless it is empty.
  pub validate_vnet-InOneVnet :
      (m : MasterNetwork) (ids : List String)
      → validate_vnet parses_ip parses_cidr m ids ≡ ok tt
      → InOneVnet m ids
  unfolding validate_vnet
  validate_vnet-InOneVnet m ids h = by_master (is_custom_vnet m.vnet_subnet_id) refl
    where
      by_master : (b : Bool) → is_custom_vnet m.vnet_subnet_id ≡ b → InOneVnet m ids
      by_master true custom =
          let (parts, found, same, agents, addresses) =
            custom-lem m ids tt (ground (arith, h, custom)) in
          all_custom parts found same agents (addresses-lem m addresses)
      by_master false plain = no_custom plain (none_custom ids (ground (arith, h, plain)))
