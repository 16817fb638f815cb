-- ===== src/Transform.antt =====
-- pkg/engine/transform: the changes that scaling and upgrades make to a generated ARM template, and
-- the values of the flag `--set`.
pub mod Json
pub mod Removal
pub mod Dependencies
pub mod Masters
pub mod Scaling
pub mod Upgrade
pub mod FlagValues
