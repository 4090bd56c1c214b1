-- ===== src/Examples.antt =====
-- Concrete runs: the interfaces instantiated, and the theorems applied to them.
mod Libs
mod Incidents
mod Storage
mod Quality
mod Checks
mod Agent
mod Discovery
mod Central
mod Config
mod Cycle
