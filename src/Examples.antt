-- ===== src/Examples.antt =====
-- Each theorem that has conditions, at concrete data where they hold.
mod Data
mod Keyspace
mod Commands
mod Wire
mod Files
mod Saving
mod Resyncs
mod Replicas
mod Sessions
mod Wiring
