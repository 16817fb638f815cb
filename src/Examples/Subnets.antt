-- ===== src/Examples/Subnets.antt =====
-- Subnets of a cluster, and the address of its DNS service.
use Prim.Native.Nat.{◌%◌, ◌^◌}
use aks_engine.Common.{
  ℕ, ◌+◌, ◌≡◌, ◌≢◌, refl, String, Bool, true, false, some, List, [], ◌∷◌, ok, err, arith,
}
use aks_engine.Networks.Addresses.{to4, cidr_first_ip, ip4_broadcast_address}
use aks_engine.Networks.Addresses.First.{address}
use aks_engine.Networks.Addresses.Broadcast.{IsBroadcast}
use aks_engine.Networks.SubnetIds.{get_vnet_subnet_id_components}
use aks_engine.Validation.{several_vnets, dns_is_first, dns_is_broadcast}
use aks_engine.Validation.Vnets.{MasterNetwork, validate_vnet}
use aks_engine.Validation.Vnets.Same.{InOneVnet, validate_vnet-InOneVnet}
use aks_engine.Validation.Kubernetes.{
  IpNet, bytes_equal, ip_equal, agrees, net_contains, check_dns_ip,
}
use aks_engine.Validation.Kubernetes.ServiceIp.{check_dns_ip-Usable}

abbrev some_text : String → Bool
some_text s = true

abbrev master_network : MasterNetwork
master_network = record {
  vnet_subnet_id =
      "/subscriptions/S/resourceGroups/R/providers/Microsoft.Network/virtualNetworks/V/subnets/masters";
  agent_vnet_subnet_id = "";
  first_consecutive_static_ip = "10.0.0.4";
  vnet_cidr = "";
  is_scale_sets = false;
}

abbrev agent_subnets : List String
agent_subnets =
    "/subscriptions/S/resourceGroups/R/providers/Microsoft.Network/virtualNetworks/V/subnets/agents"
    ∷ []

one_vnet : validate_vnet some_text some_text master_network agent_subnets ≡ ok tt
unfolding validate_vnet get_vnet_subnet_id_components
one_vnet = refl

other_vnet :
    validate_vnet some_text some_text master_network (
      "/subscriptions/S/resourceGroups/R/providers/Microsoft.Network/virtualNetworks/W/subnets/agents"
      ∷ [])
    ≡ err several_vnets
unfolding validate_vnet get_vnet_subnet_id_components
other_vnet = refl

validate_vnet-InOneVnet_example : InOneVnet some_text some_text master_network agent_subnets
validate_vnet-InOneVnet_example =
    validate_vnet-InOneVnet some_text some_text master_network agent_subnets one_vnet

-- net.ParseIP of an IPv4 address.
abbrev long_form : List ℕ → List ℕ
long_form d = 0 ∷ 0 ∷ 0 ∷ 0 ∷ 0 ∷ 0 ∷ 0 ∷ 0 ∷ 0 ∷ 0 ∷ 255 ∷ 255 ∷ d

abbrev services : List ℕ
services = 10 ∷ 0 ∷ 0 ∷ 0 ∷ []

abbrev services_mask : List ℕ
services_mask = 255 ∷ 255 ∷ 0 ∷ 0 ∷ []

abbrev service_net : IpNet
service_net = record { ip = services; mask = services_mask }

abbrev dns : List ℕ
dns = 10 ∷ 0 ∷ 0 ∷ 10 ∷ []

dns_accepted : check_dns_ip (long_form dns) service_net ≡ ok tt
unfolding check_dns_ip net_contains ip4_broadcast_address cidr_first_ip ip_equal
dns_accepted = refl

first_refused : check_dns_ip (long_form (10 ∷ 0 ∷ 0 ∷ 1 ∷ [])) service_net ≡ err dns_is_first
unfolding check_dns_ip net_contains ip4_broadcast_address cidr_first_ip ip_equal
first_refused = refl

last_refused : check_dns_ip (long_form (10 ∷ 0 ∷ 255 ∷ 255 ∷ [])) service_net ≡ err dns_is_broadcast
unfolding check_dns_ip net_contains ip4_broadcast_address cidr_first_ip ip_equal
last_refused = refl

dns_is_ip4 : to4 (long_form dns) ≡ some dns
unfolding to4
dns_is_ip4 = refl

services_is_ip4 : to4 services ≡ some services
unfolding to4
services_is_ip4 = refl

check_dns_ip-Usable_example :
    (agrees services dns services_mask ≡ true)
    × ((last : List ℕ) × IsBroadcast services services_mask last × (bytes_equal dns last ≡ false))
    × (address 0 dns ≢ (address 0 services + 1) % 256 ^ 4)
check_dns_ip-Usable_example =
    check_dns_ip-Usable (long_form dns) dns services services_mask dns_is_ip4 refl refl
      services_is_ip4 refl refl (omega arith, (omega arith, (omega arith, (omega arith, tt))))
      (omega arith, (omega arith, (omega arith, (omega arith, tt))))
      (omega arith, (omega arith, (omega arith, (omega arith, tt)))) dns_accepted
