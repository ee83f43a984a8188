-- ===== src/Quic.antt =====
-- dpkt/quic.py: the packet and frame parsers of QUIC.
pub mod Varint
pub mod RoundTrip
pub mod Bounds
pub mod Frames
pub mod Parse
pub mod Header
mod Tests
mod Packets
