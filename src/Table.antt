-- ===== src/Table.antt =====
-- Comparison of two tables: Table.Diff of internal/tengo/table.go and TablePartitioning.Diff of
-- partition.go, in one child for each kind of clause.
pub mod ByName
pub mod Columns
pub mod Indexes
pub mod Constraints
pub mod Partitions
pub mod Compare
