-- ===== src/Examples.antt =====
-- The properties at concrete inputs: an in-memory server and database, and small runs on them.
mod Server
mod Runs
mod Database
mod Positions
mod Checkpoints
mod Registry
mod Counts
mod Tables
mod Projections
mod Relays
mod Leases
mod Clients
