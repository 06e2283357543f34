-- ===== src/Tests.antt =====
-- Runs on concrete inputs, and the theorems applied to them.
mod Demo
mod Ordering
mod Commands
mod Observing
mod Runs
mod Adapters
mod Hosts
mod Servers
mod Windows
