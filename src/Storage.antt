-- ===== src/Storage.antt =====
-- src/storage.rs: the in-memory key-value engine. The modules below follow the file from its
-- configuration and data types to the operations of `MemoryStore`; the proofs are in modules named
-- for what they prove.
pub mod Config
pub mod Entry
pub mod Evict
pub mod Store
pub mod View
pub mod Sound
pub mod Undated
pub mod Memory
pub mod Write
pub mod Strings
pub mod Expiry
pub mod Keys
pub mod Lists
pub mod Reports
