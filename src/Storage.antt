-- ===== src/Storage.antt =====
-- The array-backed containers: the open-addressing tables, the sparse set and the list in a fixed array.
pub mod Probing
pub mod FeatureIndex
pub mod HashTable
pub mod OpenAddress
pub mod FixedList
pub mod FeatureList
