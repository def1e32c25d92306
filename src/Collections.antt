-- ===== src/Collections.antt =====
-- packages/core/collections.
pub mod SortedArray
pub mod SortedSet
pub mod BlobKeys
pub mod BlobDictionary
