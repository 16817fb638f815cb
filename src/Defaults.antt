-- ===== src/Defaults.antt =====
-- pkg/api: the defaults of a cluster's components. The flags of a component are a map from the name
-- of a flag to its value.
pub mod Overlay
pub mod Gates
pub mod Components
pub mod ApiServer
pub mod Kubelet
pub mod Addons
