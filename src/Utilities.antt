-- ===== src/Utilities.antt =====
-- src/Utilities.cpp and include/EmbeddedSerialFiller/Utilities.h, one child for each routine, and
-- their properties.
pub mod Receive
pub mod Crc
pub mod Split
pub mod Packets
pub mod Layout
pub mod Bytes
pub mod Cuts
