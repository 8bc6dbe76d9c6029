-- ===== src/Protocol.antt =====
-- wyoming_vietnamese/protocol.py: the connection limit, the byte budget and the frame reader.
pub mod Limiter
pub mod Budget
pub mod Json
pub mod Frame
pub mod Connection
mod Examples
