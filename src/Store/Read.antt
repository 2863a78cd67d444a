-- ===== src/Store/Read.antt =====
-- internal/store/store.go: Get in both modes, the background DELETE that it starts, and Open with
-- loadCache.
use text.Mathlib.Text.{◌==◌}
use kvp.Prelude.{
  ℕ, suc, zero, String, Bool, true, false, ◌&&◌, Option, none, some, List, [], ◌∷◌, ◌++◌,
  if◌then◌else◌,
}
use kvp.Prelude.Int.{ℤ, pos, ◌+ℤ◌}
use kvp.Assoc.{lookup, insert}
use kvp.Store.Clock.{TimeText, after}
use kvp.Store.Sql.{Bytes, Row, Db, ask, exec, select_row, delete_where}
use kvp.Store.State.{
  Error, empty_path, sql_open, migrate, load_query, load_scan, load_rows, load_parse, get_failed,
  get_parse, lazy_delete, Entry, Straggler, Store, caching, entry_size, drop_expired_entry,
}

pub record GetResult : Type 0 where
  pub found : Bool
  pub expired : Bool
  pub value : Bytes

abbrev pub missing : GetResult
missing = record { found = false; expired = false; value = [] }

abbrev pub hit : Bytes → GetResult
hit value = record { found = true; expired = false; value = value }

abbrev pub gone : Bytes → GetResult
gone value = record { found = true; expired = true; value = value }

-- DELETE … WHERE key = ? AND expires_at = ?
abbrev pub is_straggler : String → String → Row → Bool
is_straggler key text q = q.key == key && q.expires_at == text

abbrev pub has_key : String → Row → Bool
has_key key q = q.key == key

-- The row's removal after its expiry; the result still says that it was found and expired.
abbrev pub lazily_delete : String → GetResult → Store → GetResult × Option Error × Store
lazily_delete key res s =
    let (done, d) = exec (delete_where (has_key key)) s.db in
    (res, if done then none else some (lazy_delete key), record s { db = d })

abbrev pub get_parsed : String → ℕ → Bytes → Option ℕ → Store → GetResult × Option Error × Store
get_parsed key now value none s = (record missing { value = value }, some (get_parse key), s)
get_parsed key now value (some t) s =
    if after now t then lazily_delete key (gone value) s else (hit value, none, s)

-- A row that has not expired gets an entry, and its bytes are added.
abbrev pub load_entry : Row → ℕ → ℕ → Store → Store
load_entry q now t s =
    let e : Entry = record { value = q.value; expires_at = t; volatile = false } in
    if after now t then s else record s {
      cache = insert q.key e s.cache;
      cache_bytes = s.cache_bytes +ℤ pos (entry_size q.key e);
    }

-- The four PRAGMAs and the schema, which change no row.
unfoldable pub migrate_loop : ℕ → Db → Bool × Db
migrate_loop zero d = (true, d)
migrate_loop (suc n) d =
    let (done, d') = ask d in elim done [ true ↦ migrate_loop n d' | false ↦ (false, d') ]

abbrev pub opened : Option Error × Store → Option Error × Option Store
opened (none, s) = (none, some s)
opened (some err, s) = (some err, none)

module _ ⦃c : TimeText⦄ where
  abbrev pub get_entry : String → ℕ → Option Entry → Store → GetResult × Option Error × Store
  get_entry key now none s = (missing, none, s)
  get_entry key now (some e) s =
      if after now e.expires_at
      then (let s' = drop_expired_entry key e.expires_at s in
          let late : Straggler = record { key = key; expires_text = c.format e.expires_at } in
          (gone [], none, record s' { stragglers = s'.stragglers ++ late ∷ [] }))
      else (hit e.value, none, s)

  unfoldable pub get_cached : String → ℕ → Store → GetResult × Option Error × Store
  get_cached key now s = get_entry key now (lookup key s.cache) s

  abbrev pub get_row : String → ℕ → Option Row → Store → GetResult × Option Error × Store
  get_row key now none s = (missing, none, s)
  get_row key now (some q) s = get_parsed key now q.value (c.parse q.expires_at) s

  unfoldable pub get_db : String → ℕ → Store → GetResult × Option Error × Store
  get_db key now s =
      let (done, d) = ask s.db in
      let s' : Store = record s { db = d } in
      if done
      then get_row key now (select_row key d.rows) s'
      else (missing, some (get_failed key), s')

  -- Get, with the clock's reading `now`
  unfoldable pub get : String → ℕ → Store → GetResult × Option Error × Store
  get key now s = if caching s then get_cached key now s else get_db key now s

  -- The rows of the query, scanned one by one.
  unfoldable pub load_loop : ℕ → List Row → Store → Option Error × Store
  load_loop now [] s =
      let (done, d) = ask s.db in (if done then none else some load_rows, record s { db = d })
  load_loop now (q ∷ rows) s =
      let (done, d) = ask s.db in
      let s' : Store = record s { db = d } in
      elim done [
        | false ↦ (some load_scan, s')
        | true ↦ elim (c.parse q.expires_at) [
          | none ↦ (some (load_parse q.key), s')
          | some t ↦ load_loop now rows (load_entry q now t s')
        ]
      ]

  unfoldable pub load_cache : ℕ → Store → Option Error × Store
  load_cache now s =
      let (done, d) = ask s.db in
      let s' : Store = record s { db = d } in
      if done then load_loop now d.rows s' else (some load_query, s')

  abbrev pub open_migrated : ℤ → ℕ → Bool × Db → Option Error × Option Store
  open_migrated mem_limit now (false, d) = (some migrate, none)
  open_migrated mem_limit now (true, d) =
      let s : Store = record {
        db = d;
        cache = [];
        cache_bytes = pos 0;
        mem_limit = mem_limit;
        dirty = [];
        stragglers = [];
      } in
      if caching s then opened (load_cache now s) else (none, some s)

  -- Open on the database at `path`, with the clock's reading `now` in loadCache
  unfoldable pub open_store : String → ℤ → ℕ → Db → Option Error × Option Store
  open_store path mem_limit now d =
      if path == ""
      then (some empty_path, none)
      else (let (done, d') = ask d in
          if done then open_migrated mem_limit now (migrate_loop 5 d') else (some sql_open, none))

-- The goroutine with a number, and the others.
abbrev pub with_others :
    Straggler → Option (Straggler × List Straggler) → Option (Straggler × List Straggler)
with_others g none = none
with_others g (some (h, hs)) = some (h, g ∷ hs)

abbrev pub pick : ℕ → List Straggler → Option (Straggler × List Straggler)
pick n [] = none
pick zero (g ∷ gs) = some (g, gs)
pick (suc n) (g ∷ gs) = with_others g (pick n gs)

abbrev pub run_picked : Option (Straggler × List Straggler) → Store → Store
run_picked none s = s
run_picked (some (g, gs)) s =
    let (done, d) = exec (delete_where (is_straggler g.key g.expires_text)) s.db in
    record s { db = d; stragglers = gs }

-- A goroutine of `getCached` runs, whichever of those that wait; the error of its statement is
-- dropped.
unfoldable pub run_straggler : ℕ → Store → Store
run_straggler n s = run_picked (pick n s.stragglers) s

unfoldable pub run_stragglers : List ℕ → Store → Store
run_stragglers [] s = s
run_stragglers (n ∷ ns) s = run_stragglers ns (run_straggler n s)
