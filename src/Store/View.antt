-- ===== src/Store/View.antt =====
-- What a client of internal/store/store.go can see: for each key, the value and the expiry that a
-- read would go by. This is the abstract map that the two-layer store implements.
pub mod Writes
pub mod Reads
pub mod Sweeps
pub mod Flushes
use kvp.Prelude.{ℕ, String, Bool, Option, none, some, if◌then◌else◌}
use kvp.Assoc.{lookup}
use kvp.Store.Clock.{TimeText, after}
use kvp.Store.Sql.{Bytes, Row, select_row}
use kvp.Store.State.{Entry, Store, caching}
use kvp.Store.Read.{GetResult}

-- What `serveGet` tells apart in the result of Get.
pub data Reply : Type 0 where
  absent expired : Reply
  found : Bytes → Reply

unfoldable pub reply_of : GetResult → Reply
reply_of r = if r.found then (if r.expired then expired else found r.value) else absent

abbrev pub of_entry : Option Entry → Option (Bytes × ℕ)
of_entry none = none
of_entry (some e) = some (e.value, e.expires_at)

abbrev pub with_time : Bytes → Option ℕ → Option (Bytes × ℕ)
with_time value none = none
with_time value (some t) = some (value, t)

-- The specification of a read: the value until its expiry.
abbrev pub reply : ℕ → Option (Bytes × ℕ) → Reply
reply now none = absent
reply now (some (value, t)) = if after now t then expired else found value

module _ ⦃c : TimeText⦄ where
  abbrev pub of_row : Option Row → Option (Bytes × ℕ)
  of_row none = none
  of_row (some q) = with_time q.value (c.parse q.expires_at)

  -- With the memory layer the entry counts, without it the row.
  unfoldable pub view : Store → String → Option (Bytes × ℕ)
  view s key =
      if caching s then of_entry (lookup key s.cache) else of_row (select_row key s.db.rows)
