-- ===== src/Meta.antt =====
-- src/meta.rs: the log of commits in a metadata block, its reader and its writer.
pub mod Reader
pub mod Iter
pub mod Commit
pub mod Pair
pub mod Encoding
