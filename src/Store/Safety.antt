-- ===== src/Store/Safety.antt =====
-- internal/store/store.go: every operation of the `Store` keeps its invariant, on every branch.
pub mod Writes
pub mod Reads
pub mod Sweeps
pub mod Opening
pub mod Evictions
pub mod Batches
