-- ===== src/Examples.antt =====
-- Runs of the theorems at concrete states.
mod Locks
mod Logs
mod Nodes
mod Pages
mod Pools
mod Queries
mod Sessions
mod Tables
