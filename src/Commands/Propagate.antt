-- ===== src/Commands/Propagate.antt =====
-- What the commands hand to the AOF and to replicas.
pub mod Set
pub mod Expire
pub mod Others
pub mod Whole
pub mod Plain
pub mod Asks
pub mod Effects
pub mod Converge
pub mod Clock
pub mod Series
pub mod Late
