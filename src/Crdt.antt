-- ===== src/Crdt.antt =====
-- storage/crdt: the algorithms that order the nodes of a query.
mod Tests
pub mod Sorted
pub mod SortedRefId
pub mod RefId
