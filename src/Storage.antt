-- ===== src/Storage.antt =====
-- The storage of blocks (storage/src).
pub mod Bytes
pub mod PackageEntry
pub mod Package
