-- ===== src/Protobuf.antt =====
-- The protobuf reader and writer of wyoming_vietnamese/download.py, over lists of bytes.
pub mod Varint
pub mod RoundTrip
pub mod Pieces
pub mod Progress
pub mod Model
mod Examples
