-- ===== src/Networks/SubnetIds.antt =====
-- pkg/api/common/net.go: `GetVNETSubnetIDComponents`, whose regular expression can match in one way
-- only: a group `([^\/]*)` ends at the next slash.
pub mod RoundTrip
use Prim.Native.Char.{Char, code}
use Prim.Native.String.append
use aks_engine.Common.{
  String, Bool, true, false, not, ◌&&◌, Option, none, some, nat_beq, if◌then◌else◌, is_empty, ℕ,
}

-- A literal of the expression, in which an unescaped dot stands for every character but a newline.
abbrev matches_char : Char → Char → Bool
matches_char d c =
    if nat_beq (code d) b'.' then not (nat_beq (code c) 10) else nat_beq (code d) (code c)

unfoldable pub after_literal : String → String → Option String
after_literal String.[] s = some s
after_literal (String.◌∷◌ d ds) String.[] = none
after_literal (String.◌∷◌ d ds) (String.◌∷◌ c s) =
    let rest = after_literal ds s in if matches_char d c then rest else none

-- A group, and what follows it.
unfoldable pub group : String → String × String
group String.[] = (String.[], String.[])
group (String.◌∷◌ c s) =
    let rest = group s in
    if nat_beq (code c) b'/' then (String.[], String.◌∷◌ c s) else (String.◌∷◌ c rest.0, rest.1)

pub record SubnetParts : Type 0 where
  pub subscription_id : String
  pub resource_group : String
  pub vnet_name : String
  pub subnet_name : String

abbrev last_group : String → String → String → Option String → Option SubnetParts
last_group sub rg vnet none = none
last_group sub rg vnet (some s) =
    let g = group s in
    if is_empty g.1
    then some
        (record { subscription_id = sub; resource_group = rg; vnet_name = vnet; subnet_name = g.0 })
    else none

abbrev vnet_group : String → String → Option String → Option SubnetParts
vnet_group sub rg none = none
vnet_group sub rg (some s) = last_group sub rg (group s).0 (after_literal "/subnets/" (group s).1)

abbrev resource_group_group : String → Option String → Option SubnetParts
resource_group_group sub none = none
resource_group_group sub (some s) =
    vnet_group sub (group s).0
      (after_literal "/providers/Microsoft.Network/virtualNetworks/" (group s).1)

abbrev subscription_group : Option String → Option SubnetParts
subscription_group none = none
subscription_group (some s) =
    resource_group_group (group s).0 (after_literal "/resourceGroups/" (group s).1)

-- `none` is "Unable to parse vnetSubnetID".
unfoldable pub get_vnet_subnet_id_components : String → Option SubnetParts
unfolding after_literal group
get_vnet_subnet_id_components id = subscription_group (after_literal "/subscriptions/" id)
