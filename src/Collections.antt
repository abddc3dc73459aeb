-- ===== src/Collections.antt =====
-- The containers of sedimentree_core/src/collections.rs and of alloc, `Set`, `Map` and `BTreeSet`, and
-- the maps of subduction_core/src/collections. A set is a list in its iteration order with no element
-- twice; a map is an association list in its iteration order with no key twice; a `BTreeSet` of byte
-- arrays is strictly ascending.
pub mod Set
pub mod Map
pub mod BTreeSet
pub mod Walk
pub mod Members
pub mod Index
pub mod ShardedMap
pub mod BoundedShardedMap
