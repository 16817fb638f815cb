-- ===== src/Examples.antt =====
-- Runs of the model on small inputs, and instances of the theorems at them.
mod Releases
mod Versions
mod Orchestrators
mod Clouds
mod Operations
mod Upgrade
mod Discovery
mod Transform
mod Networks
mod Defaults
mod Names
mod Validation
mod Subnets
mod Profiles
