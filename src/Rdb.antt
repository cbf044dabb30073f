-- ===== src/Rdb.antt =====
-- The RDB snapshot format (include/rp/rdb.hpp, src/rdb.cpp): its opcodes, its writer and its parser.
pub mod Crc
pub mod Write
pub mod Reader
pub mod Parse
pub mod Fields
pub mod RoundTrip
