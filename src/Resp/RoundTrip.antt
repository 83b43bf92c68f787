-- ===== src/Resp/RoundTrip.antt =====
-- Encoding and parsing against each other (nimbis-resp/src/encode.rs and parser.rs).
pub mod Wire
pub mod Items
pub mod Encodable
pub mod Steps
pub mod Filling
pub mod Loop
pub mod Whole
