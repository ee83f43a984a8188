-- ===== src/Qpack.antt =====
-- dpkt/qpack.py: the instructions of QPACK on the encoder stream and in header blocks.
pub mod Instructions
pub mod Parse
pub mod Total
pub mod Integers
mod Tests
