-- ===== src/Storage.antt =====
-- nimbis-storage/src.
pub mod BigEndian
pub mod DataType
pub mod Score
pub mod Keys
pub mod Meta
pub mod Version
pub mod Zsets
pub mod Compaction
pub mod Lock
pub mod BytesEq
pub mod Database
pub mod Engine
pub mod Strings
pub mod Elements
pub mod Hashes
pub mod Sets
pub mod Lists
