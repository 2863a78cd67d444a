-- ===== src/Store/Durable/Failed.antt =====
-- internal/store/store.go: a Flush whose first transaction fails. Its comment says that on an error
-- the keys that were not persisted stay dirty for the next run.
use kvp.Prelude.{
  ℕ, ◌≤◌, String, ◌≡◌, refl, true, false, Option, none, some, List, [], ◌∷◌, ap, ◌∙◌, arith, eq_iff,
  if◌then◌else◌, length, take, map, chunks-cons, take-eq_self,
}
use kvp.Assoc.{Assoc, lookup, keys, lookup-insert}
use kvp.Store.Clock.{TimeText}
use kvp.Store.Sql.{mem}
use kvp.Store.State.{
  Error, Entry, Store, FlushItem, caching, take_dirty, snapshot, re_mark_dirty, mark_dirty,
}
use kvp.Store.Write.{flush_tx, flush_chunks, flush_keys, flush_batch_size, flush}
use kvp.Store.Durable.{durable}
use kvp.Store.Durable.Flushed.{flush_tx-atomic}

abbrev pub item_keys : List FlushItem → List String
item_keys items = map (λ it. it.key) items

lookup-re_mark_dirty :
    (items : List FlushItem) (s : Store) (j : String)
    → lookup j (re_mark_dirty items s).dirty
      ≡ (if mem j (item_keys items) then some tt else lookup j s.dirty)
unfolding re_mark_dirty mem mark_dirty
lookup-re_mark_dirty [] s j = refl
lookup-re_mark_dirty (it ∷ items) s j = ground (
  arith,
  lookup-re_mark_dirty items (mark_dirty it.key s) j,
  lookup-insert it.key j tt s.dirty,
  eq_iff it.key j,
)

db-re_mark_dirty : (items : List FlushItem) (s : Store) → (re_mark_dirty items s).db ≡ s.db
unfolding re_mark_dirty
db-re_mark_dirty [] s = refl
db-re_mark_dirty (it ∷ items) s =
    db-re_mark_dirty items (mark_dirty it.key s) ∙ (unfold mark_dirty in refl)

snapshot-nil : (m : Assoc Entry) → snapshot [] m ≡ []
unfolding snapshot
snapshot-nil m = refl

-- The live dirty keys, as Flush reads them.
abbrev pub batch : Store → List FlushItem
batch s = snapshot (keys s.dirty) s.cache

-- The part of the batch that the first transaction writes.
abbrev pub first_chunk : Store → List FlushItem
first_chunk s = take flush_batch_size (batch s)

module _ ⦃c : TimeText⦄ where
  -- What a flush has done when a transaction fails with the error `e`.
  pub record Failed (items : List FlushItem) (e : Error) (s : Store) (r : ℕ × Option Error × Store)
      : Type 0 where
    pub error : r.1 ≡ some e
    pub persisted : r.0 ≡ 0
    pub rows_same : r.2.db.rows ≡ s.db.rows
    pub remarked :
        (j : String)
        → lookup j r.2.dirty ≡ (if mem j (item_keys items) then some tt else lookup j s.dirty)

  flush_chunks-Failed :
      (items : List FlushItem) (cs : List (List FlushItem)) (e : Error) (s : Store)
      → (flush_tx items s.db).0 ≡ some e
      → Failed items e s (flush_chunks (items ∷ cs) 0 s)
  unfolding flush_chunks
  flush_chunks-Failed items cs e s h = record {
    error = rw (h, flush_chunks);
    persisted = rw (h, flush_chunks);
    rows_same =
        rw (h, flush_chunks)
          (ap (λ d. d.rows) (db-re_mark_dirty items _) ∙ flush_tx-atomic items s.db ∙ rw h);
    remarked = λ j. rw (h, flush_chunks) (lookup-re_mark_dirty items _ j);
  }

  flush_keys-Failed :
      (ks : List String) (e : Error) (s : Store) (it : FlushItem) (items : List FlushItem)
      → snapshot ks s.cache ≡ it ∷ items
      → (flush_tx (take flush_batch_size (it ∷ items)) s.db).0 ≡ some e
      → Failed (take flush_batch_size (it ∷ items)) e s (flush_keys ks s)
  flush_keys-Failed [] e s it items h f = cc (snapshot-nil s.cache)
  flush_keys-Failed (k ∷ ks) e s it items h f =
      let p = chunks-cons flush_batch_size it items in rw (h, p.1) (flush_chunks-Failed _ p.0 e s f)

  -- A flush whose first transaction fails with `e` returns `e` and a count of zero, writes no row,
  -- and leaves exactly the keys of that transaction dirty.
  pub flush_failed_lem :
      (s : Store) (it : FlushItem) (items : List FlushItem) (e : Error)
      → caching s ≡ true
      → batch s ≡ it ∷ items
      → (flush_tx (first_chunk s) s.db).0 ≡ some e
      → ((flush s).1 ≡ some e)
        × ((flush s).0 ≡ 0)
        × ((flush s).2.db.rows ≡ s.db.rows)
        × ((j : String)
            → lookup j (flush s).2.dirty
              ≡ (if mem j (item_keys (first_chunk s)) then some tt else none))
  unfolding flush take_dirty
  flush_failed_lem s it items e on full f =
      let r =
        flush_keys-Failed (keys s.dirty) e (record s { dirty = [] }) it items full (rw full at f) in
      rw (on, full) (r.error, r.persisted, r.rows_same, λ j. unfold lookup in r.remarked j)

  -- While the live dirty keys fit one transaction, none of them is forgotten by its failure.
  pub flush_keeps_dirty :
      (s : Store) (it : FlushItem) (items : List FlushItem) (e : Error) (j : String)
      → caching s ≡ true
      → batch s ≡ it ∷ items
      → length (batch s) ≤ flush_batch_size
      → (flush_tx (first_chunk s) s.db).0 ≡ some e
      → mem j (item_keys (batch s)) ≡ true
      → lookup j (flush s).2.dirty ≡ some tt
  flush_keeps_dirty s it items e j on full fits f live =
      (flush_failed_lem s it items e on full f).3 j
      ∙ rw (take-eq_self flush_batch_size (batch s) fits, live)

  -- Beyond one transaction they are: a live dirty key outside the first transaction, when that one
  -- fails, is neither written to its row nor dirty any more, so no later flush will write it.
  pub flush_forgets :
      (s : Store) (it : FlushItem) (items : List FlushItem) (e : Error) (j : String)
      → caching s ≡ true
      → batch s ≡ it ∷ items
      → (flush_tx (first_chunk s) s.db).0 ≡ some e
      → mem j (item_keys (batch s)) ≡ true
      → mem j (item_keys (first_chunk s)) ≡ false
      → (lookup j (flush s).2.dirty ≡ none) × (durable (flush s).2.db.rows j ≡ durable s.db.rows j)
  flush_forgets s it items e j on full f live beyond =
      let r = flush_failed_lem s it items e on full f in
      (r.3 j ∙ rw beyond, ap (λ rows. durable rows j) r.2)
