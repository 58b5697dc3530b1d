-- ===== src/Engine/Tests.antt =====
-- Examples: an environment, a program and states, and the theorems at them.
mod Data
mod Calls
mod Parts
mod Members
mod Listings
mod Programs
mod Snapshots
