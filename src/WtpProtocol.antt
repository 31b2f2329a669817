-- ===== src/WtpProtocol.antt =====
-- WTPProtocol.c: the message elements that a termination point assembles, and those of the access
-- controller that it parses.
pub mod Assemble
pub mod Events
pub mod Written
pub mod Overflow
pub mod Parse
pub mod Reads
pub mod Joined
pub mod RoundTrip
