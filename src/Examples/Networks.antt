-- ===== src/Examples/Networks.antt =====
-- Addresses and identifiers of subnets.
use aks_engine.Common.{◌≡◌, refl, ◌+◌, ℕ, none, some, List, [], ◌∷◌, length, arith}
use Prim.Native.Nat.{◌%◌, ◌^◌}
use aks_engine.Networks.Addresses.{cidr_first_ip, ip4_broadcast_address, to4}
use aks_engine.Networks.Addresses.First.{address, IsBytes, address-cidr_first_ip}
use aks_engine.Networks.Addresses.Broadcast.{IsBroadcast, ip4_broadcast_address-IsBroadcast}
use aks_engine.Networks.SubnetIds.{SubnetParts, get_vnet_subnet_id_components}
use aks_engine.Networks.SubnetIds.RoundTrip.{subnet_id, get_vnet_subnet_id_components-subnet_id}

abbrev first : List ℕ
first = 10 ∷ 240 ∷ 255 ∷ 255 ∷ []

carried : cidr_first_ip first ≡ 10 ∷ 241 ∷ 0 ∷ 0 ∷ []
unfolding cidr_first_ip
carried = refl

address-cidr_first_ip_example :
    (address 0 (cidr_first_ip first) ≡ (address 0 first + 1) % 256 ^ length first)
    × IsBytes (cidr_first_ip first)
    × (length (cidr_first_ip first) ≡ length first)
address-cidr_first_ip_example =
    address-cidr_first_ip first (omega arith, (omega arith, (omega arith, (omega arith, tt))))

abbrev subnet : List ℕ
subnet = 10 ∷ 0 ∷ 16 ∷ 0 ∷ []

abbrev mask : List ℕ
mask = 255 ∷ 255 ∷ 240 ∷ 0 ∷ []

last_address : ip4_broadcast_address subnet mask ≡ some (some (10 ∷ 0 ∷ 31 ∷ 255 ∷ []))
unfolding ip4_broadcast_address
last_address = refl

short_mask : ip4_broadcast_address subnet (255 ∷ []) ≡ none
unfolding ip4_broadcast_address
short_mask = refl

subnet_is_ip4 : to4 subnet ≡ some subnet
unfolding to4
subnet_is_ip4 = refl

ip4_broadcast_address-IsBroadcast_example :
    (last : List ℕ) × (ip4_broadcast_address subnet mask ≡ some (some last))
    × IsBroadcast subnet mask last
ip4_broadcast_address-IsBroadcast_example =
    ip4_broadcast_address-IsBroadcast subnet subnet mask subnet_is_ip4
      (omega arith, (omega arith, (omega arith, (omega arith, tt))))
      (omega arith, (omega arith, (omega arith, (omega arith, tt)))) (omega arith)

abbrev parts : SubnetParts
parts = record {
  subscription_id = "SUB_ID";
  resource_group = "RG_NAME";
  vnet_name = "VNET_NAME";
  subnet_name = "SUBNET_NAME";
}

parts_of_subnet :
    get_vnet_subnet_id_components
      "/subscriptions/SUB_ID/resourceGroups/RG_NAME/providers/Microsoft.Network/virtualNetworks/VNET_NAME/subnets/SUBNET_NAME"
    ≡ some parts
unfolding get_vnet_subnet_id_components
parts_of_subnet = refl

no_subnet :
    get_vnet_subnet_id_components
      "/providers/Microsoft.Network/virtualNetworks/VNET_NAME/subnets/SUBNET_NAME"
    ≡ none
unfolding get_vnet_subnet_id_components
no_subnet = refl

get_vnet_subnet_id_components-subnet_id_example :
    get_vnet_subnet_id_components (subnet_id parts) ≡ some parts
get_vnet_subnet_id_components-subnet_id_example =
    get_vnet_subnet_id_components-subnet_id parts refl refl refl refl
