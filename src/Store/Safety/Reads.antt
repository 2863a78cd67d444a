-- ===== src/Store/Safety/Reads.antt =====
-- internal/store/store.go: Get and the goroutine that it starts keep the invariant.
use kvp.Prelude.{ℕ, String, Option, none, some, List, inl, inr, Bool-cases}
use kvp.Assoc.{lookup}
use kvp.Store.Clock.{TimeText, after}
use kvp.Store.Sql.{Bytes, Row, ask, delete_where}
use kvp.Store.Rows.{rows-ask, exec-IsKeyed, delete_where-IsKeyed}
use kvp.Store.State.{Entry, Straggler, Store, caching}
use kvp.Store.Read.{
  has_key, is_straggler, get_entry, get_cached, get_parsed, get_row, get_db, get, run_picked, pick,
  run_straggler,
}
use kvp.Store.Valid.{IsValid, with_db-IsValid, drop_expired_entry-IsValid}

pub asked-IsValid : {s : Store} → IsValid s → IsValid (record s { db = (ask s.db).1 })
asked-IsValid v = with_db-IsValid _ v (rw rows-ask v.rows_keyed)

pub stragglers-IsValid :
    {s : Store} (gs : List Straggler) → IsValid s → IsValid (record s { stragglers = gs })
stragglers-IsValid gs v = record {
  cache_map = v.cache_map;
  counted = v.counted;
  dirty_map = v.dirty_map;
  rows_keyed = v.rows_keyed;
  off_cache = v.off_cache;
  off_dirty = v.off_dirty;
}

get_parsed-IsValid :
    (key : String) (now : ℕ) (value : Bytes) (o : Option ℕ) {s : Store}
    → IsValid s
    → IsValid (get_parsed key now value o s).2
get_parsed-IsValid key now value none v = v
get_parsed-IsValid key now value (some t) {s} v = elim (Bool-cases (after now t)) [
  | inl old ↦ rw old (
      with_db-IsValid _ v (
        exec-IsKeyed (delete_where (has_key key)) s.db (delete_where-IsKeyed (has_key key))
          v.rows_keyed))
  | inr live ↦ rw live v
]

module _ ⦃c : TimeText⦄ where
  get_entry-IsValid :
      (key : String) (now : ℕ) (o : Option Entry) {s : Store}
      → IsValid s
      → IsValid (get_entry key now o s).2
  get_entry-IsValid key now none v = v
  get_entry-IsValid key now (some e) v = elim (Bool-cases (after now e.expires_at)) [
    | inl old ↦ rw old (stragglers-IsValid _ (drop_expired_entry-IsValid key e.expires_at v))
    | inr live ↦ rw live v
  ]

  get_row-IsValid :
      (key : String) (now : ℕ) (o : Option Row) {s : Store}
      → IsValid s
      → IsValid (get_row key now o s).2
  get_row-IsValid key now none v = v
  get_row-IsValid key now (some q) v = get_parsed-IsValid key now q.value (c.parse q.expires_at) v

  get_db-IsValid : (key : String) (now : ℕ) {s : Store} → IsValid s → IsValid (get_db key now s).2
  unfolding get_db
  get_db-IsValid key now {s} v = elim (Bool-cases (ask s.db).0) [
    | inl ok ↦ rw ok (get_row-IsValid key now _ (asked-IsValid v))
    | inr failed ↦ rw failed (asked-IsValid v)
  ]

  get_cached-IsValid :
      (key : String) (now : ℕ) {s : Store} → IsValid s → IsValid (get_cached key now s).2
  unfolding get_cached
  get_cached-IsValid key now {s} v = get_entry-IsValid key now (lookup key s.cache) v

  -- A read keeps the invariant: a hit, a miss, an expired entry or a failing statement.
  pub get-IsValid : (key : String) (now : ℕ) (s : Store) → IsValid s → IsValid (get key now s).2
  unfolding get
  get-IsValid key now s v = elim (Bool-cases (caching s)) [
    | inl on ↦ rw on (get_cached-IsValid key now v)
    | inr off ↦ rw off (get_db-IsValid key now v)
  ]

run_picked-IsValid :
    (o : Option (Straggler × List Straggler)) {s : Store} → IsValid s → IsValid (run_picked o s)
run_picked-IsValid none v = v
run_picked-IsValid (some (g, gs)) {s} v = stragglers-IsValid gs (
    with_db-IsValid _ v
      (exec-IsKeyed _ s.db (delete_where-IsKeyed (is_straggler g.key g.expires_text)) v.rows_keyed))

pub run_straggler-IsValid : (n : ℕ) (s : Store) → IsValid s → IsValid (run_straggler n s)
unfolding run_straggler
run_straggler-IsValid n s v = run_picked-IsValid (pick n s.stragglers) v
