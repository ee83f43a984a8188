-- ===== src/Dns.antt =====
-- dpkt/dns.py: names with compression, questions, resource records and messages.
pub mod Utf8
pub mod Names
pub mod Flags
pub mod Records
pub mod Message
pub mod Keys
pub mod Spelling
pub mod Compression
pub mod RoundTrip
pub mod Ending
pub mod Faults
mod Tests
mod Examples
