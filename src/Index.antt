-- ===== src/Index.antt =====
-- daemon/src/store/index.rs: the archive's metadata, one module for each group of methods.
pub mod Tables
pub mod Refs
pub mod Changes
pub mod Consistent
pub mod Dropping
pub mod Insertion
pub mod Marks
pub mod Paging
pub mod Prefixes
pub mod Removal
pub mod Ids
pub mod Expiry
pub mod Eviction
pub mod Order
pub mod Queries
pub mod Locating
pub mod Listing
