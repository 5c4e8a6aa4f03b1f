-- ===== src/Examples.antt =====
-- Runs of the definitions at concrete inputs, and the theorems applied to them.
mod Records
mod Plans
mod Sessions
mod Snapshots
mod Traces
mod Desks
mod Budgets
mod Scopes
mod Versions
mod Routes
mod Drives
mod Promotions
mod Containers
mod Commits
mod Turns
