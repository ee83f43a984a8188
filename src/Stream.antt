-- ===== src/Stream.antt =====
-- dpkt/stream.py: TCP stream reassembly.
pub mod Segments
pub mod Buffer
pub mod Slices
pub mod Sorting
pub mod Merging
pub mod Cascading
pub mod Cases
pub mod Counting
pub mod Delivery
pub mod Receiver
pub mod Reassembly
pub mod Flush
pub mod Faults
pub mod Connection
pub mod Reassembler
mod Tests
mod Examples
