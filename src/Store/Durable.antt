-- ===== src/Store/Durable.antt =====
-- What of internal/store/store.go's state a restart keeps: for each key, the value and the expiry
-- of its row.
pub mod Load
pub mod Flushed
pub mod Failed
pub mod Survives
pub mod Coherent
pub mod Flushing
pub mod Sound
pub mod Opening
pub mod Pending
pub mod Waiting
pub mod Unspoiled
pub mod Deletions
pub mod Restart
use kvp.Prelude.{ℕ, String, Option, List}
use kvp.Store.Clock.{TimeText}
use kvp.Store.Sql.{Bytes, Row, select_row}
use kvp.Store.View.{of_row}

module _ ⦃c : TimeText⦄ where
  unfoldable pub durable : List Row → String → Option (Bytes × ℕ)
  durable rows key = of_row (select_row key rows)
