-- ===== src/Http3.antt =====
-- dpkt/http3.py: the frames of HTTP/3 on a byte buffer.
pub mod Frames
pub mod Termination
pub mod Framing
pub mod Parsing
pub mod Settings
mod Tests
