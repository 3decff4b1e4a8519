-- ===== src/Tests.antt =====
-- Concrete inputs on which the theorems are applied.
mod World
mod Memory
mod Settings
mod Relay
mod Services
mod Requests
mod Licenses
mod Disks
mod Tiers
mod Reloads
mod Manifests
mod Visits
mod Running
mod Misses
mod Management
mod Pins
