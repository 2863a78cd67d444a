-- ===== src/Store.antt =====
-- internal/store/store.go
pub mod Mode
pub mod Clock
pub mod Sql
pub mod State
pub mod Write
pub mod Read
pub mod Expire
pub mod Evict
pub mod Backup
pub mod Rows
pub mod Valid
pub mod Safety
pub mod View
pub mod Durable
pub mod Counts
pub mod Floor
pub mod Losses
pub mod Threads
mod Tests
