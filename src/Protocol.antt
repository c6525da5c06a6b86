-- ===== src/Protocol.antt =====
-- src/protocol: RESP frames, their encoder and their decoder.
pub mod Frame
pub mod Encoder
pub mod Parser
pub mod Lines
pub mod RoundTrip
pub mod Streams
pub mod Torn
pub mod Total
pub mod Errors
pub mod Words
