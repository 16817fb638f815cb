-- ===== src/Versions.antt =====
-- pkg/api/common/versions.go
pub mod Table
pub mod Semver
pub mod Select
pub mod Between
pub mod Latest
pub mod Supported
pub mod Rationalize
