-- ===== src/Cobs.antt =====
-- src/CobsTranscoder.cpp, "Consistent Overhead Byte Stuffing".
pub mod Encode
pub mod Decode
pub mod Frame
pub mod Framing
pub mod Encoded
pub mod Copying
pub mod Rounds
pub mod Agreement
pub mod RoundTrip
pub mod Presized
pub mod Safety
