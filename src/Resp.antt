-- ===== src/Resp.antt =====
-- nimbis-resp: the RESP protocol.
pub mod Types
pub mod External
pub mod Utils
pub mod Encode
pub mod Parser
pub mod RoundTrip
