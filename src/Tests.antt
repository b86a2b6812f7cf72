-- ===== src/Tests.antt =====
-- Runs on a cluster in memory, and the theorems at concrete data.
pub mod Memory
mod Scenario
mod Witnesses
mod Deployed
mod Local
mod Clients
mod Runs
mod Copies
mod Lifecycles
mod Loops
mod Fakes
mod Stability
