-- ===== src/Tests.antt =====
-- Runs of the definitions on small inputs, and the theorems applied to them.
pub mod Data
pub mod Builds
pub mod Adds
pub mod Matching
pub mod Inputs
pub mod Lines
pub mod Texts
