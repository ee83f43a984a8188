-- ===== src/Packet.antt =====
-- dpkt/dpkt.py: what the packets share.
pub mod Checksum
pub mod Header
pub mod Struct
pub mod Faults
mod Tests
