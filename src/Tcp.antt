-- ===== src/Tcp.antt =====
-- dpkt/tcp.py: the TCP header and its options.
pub mod Options
pub mod Header
mod Tests
