-- ===== src/Capture.antt =====
-- The capture files that test the engine: tools/mkpcap.py and tools/mkproto_pcap.py.
pub mod Bytes
pub mod Checksum
pub mod Hello
pub mod Packet
mod Tests
