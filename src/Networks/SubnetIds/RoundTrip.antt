-- ===== src/Networks/SubnetIds/RoundTrip.antt =====
-- The identifier of a subnet, read back by `GetVNETSubnetIDComponents`.
use Prim.Native.Char.{code}
use Prim.Native.String.{◌++◌}
use Prim.Native.String.append
use aks_engine.Common.{◌≡◌, refl, String, Bool, true, false, not, ◌&&◌, some, nat_beq, arith}
use aks_engine.Networks.SubnetIds.{SubnetParts, after_literal, group, get_vnet_subnet_id_components}

abbrev pub no_slash : String → Bool
no_slash String.[] = true
no_slash (String.◌∷◌ c s) = not (nat_beq (code c) b'/') && no_slash s

abbrev starts_slash : String → Bool
starts_slash String.[] = false
starts_slash (String.◌∷◌ c s) = nat_beq (code c) b'/'

-- The identifier of a subnet by its four parts.
abbrev pub subnet_id : SubnetParts → String
subnet_id p =
    "/subscriptions/"
    ++ (p.subscription_id
        ++ ("/resourceGroups/"
            ++ (p.resource_group
                ++ ("/providers/Microsoft.Network/virtualNetworks/"
                    ++ (p.vnet_name ++ ("/subnets/" ++ p.subnet_name))))))

after_literal-append : (literal s : String) → after_literal literal (literal ++ s) ≡ some s
unfolding after_literal
after_literal-append String.[] s = rw append.nil refl
after_literal-append (String.◌∷◌ d ds) s =
    rw append.cons (ground (arith, after_literal-append ds s))

group-stop :
    (literal s : String)
    → starts_slash literal ≡ true
    → group (literal ++ s) ≡ (String.[], literal ++ s)
unfolding group
group-stop String.[] s h = absurd (ground (arith, h))
group-stop (String.◌∷◌ c l) s h = rw append.cons (rw h refl)

-- A part ends at the slash that the next literal starts with.
group-append :
    (a literal s : String)
    → no_slash a ≡ true
    → starts_slash literal ≡ true
    → group (a ++ (literal ++ s)) ≡ (a, literal ++ s)
unfolding group
group-append String.[] literal s h k = rw append.nil (group-stop literal s k)
group-append (String.◌∷◌ c a) literal s h k =
    rw append.cons (ground (arith, h, group-append a literal s (ground (arith, h)) k))

group-end : (a : String) → no_slash a ≡ true → group a ≡ (a, String.[])
unfolding group
group-end String.[] h = refl
group-end (String.◌∷◌ c a) h = ground (arith, h, group-end a (ground (arith, h)))

-- `GetVNETSubnetIDComponents` reads from the identifier of a subnet the parts that it was made of,
-- each of which may be any text without a slash.
pub get_vnet_subnet_id_components-subnet_id :
    (p : SubnetParts)
    → no_slash p.subscription_id ≡ true
    → no_slash p.resource_group ≡ true
    → no_slash p.vnet_name ≡ true
    → no_slash p.subnet_name ≡ true
    → get_vnet_subnet_id_components (subnet_id p) ≡ some p
unfolding get_vnet_subnet_id_components
get_vnet_subnet_id_components-subnet_id p a b c d =
    let tail = "/subnets/" ++ p.subnet_name in
    let vnets = "/providers/Microsoft.Network/virtualNetworks/" ++ (p.vnet_name ++ tail) in
    let groups = "/resourceGroups/" ++ (p.resource_group ++ vnets) in
    rw
      (
        after_literal-append "/subscriptions/" (p.subscription_id ++ groups),
        group-append p.subscription_id "/resourceGroups/" (p.resource_group ++ vnets) a refl,
        after_literal-append "/resourceGroups/" (p.resource_group ++ vnets),
        group-append p.resource_group "/providers/Microsoft.Network/virtualNetworks/"
            (p.vnet_name ++ tail) b refl,
        after_literal-append "/providers/Microsoft.Network/virtualNetworks/" (p.vnet_name ++ tail),
        group-append p.vnet_name "/subnets/" p.subnet_name c refl,
        after_literal-append "/subnets/" p.subnet_name,
        group-end p.subnet_name d,
      )
      refl
