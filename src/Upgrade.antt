-- ===== src/Upgrade.antt =====
-- pkg/operations/kubernetesupgrade
pub mod Lower
pub mod Nodes
pub mod Copy
pub mod Indices
pub mod Masters
pub mod Agents
pub mod ScaleSets
pub mod Run
pub mod Discovery
pub mod Autoscaler
