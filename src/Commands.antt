-- ===== src/Commands.antt =====
-- `CommandTable` of include/rp/commands.hpp and src/commands.cpp: what the commands share.
pub mod Base
pub mod Verb
pub mod Ops
pub mod Admin
pub mod Set
pub mod Keyspace
pub mod Dispatch
pub mod Propagate
