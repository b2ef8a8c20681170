-- ===== src/Tests.antt =====
-- The theorems at concrete inputs, and runs of the definitions.
pub mod Machines
pub mod Kvm
pub mod Archive
pub mod Reports
mod Preflight
mod Network
pub mod Stages
mod Run
pub mod MicroVms
mod Guests
mod Consoles
mod Artifacts
mod Boots
