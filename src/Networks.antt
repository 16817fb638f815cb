-- ===== src/Networks.antt =====
-- pkg/api/common/net.go: addresses of subnets and the parts of a subnet's identifier.
pub mod Addresses
pub mod SubnetIds
