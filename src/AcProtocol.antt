-- ===== src/AcProtocol.antt =====
-- ACProtocol.c: the message elements that an access controller assembles, and those of the
-- termination point that it parses.
pub mod Assemble
pub mod Written
pub mod Parse
pub mod Events
pub mod Reads
pub mod Statistics
