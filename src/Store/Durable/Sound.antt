-- ===== src/Store/Durable/Sound.antt =====
-- internal/store/store.go: the store whose memory layer is on and agrees with the rows, and what keeps
-- it so.
use kvp.Prelude.{
  ℕ, ◌+◌, String, ◌≡◌, refl, ◌∙◌, true, Option, none, some, List, [], ◌∷◌, arith, inl, inr,
  Bool-cases, Option-cases, chunks,
}
use kvp.Assoc.{lookup, keys}
use kvp.Store.Mode.{PutMode, put_sync, put_async, put_memory}
use kvp.Store.Clock.{TimeText, after}
use kvp.Store.Sql.{Bytes}
use kvp.Store.State.{
  Entry, Store, FlushItem, caching, cache_put, cache_drop, mark_dirty, clear_dirty, take_dirty,
  snapshot, re_mark_dirty, drop_if_same, drop_expired_entry,
}
use kvp.Store.Write.{
  put_in_mode, put_with_mode, effective_mode, flush_tx, flush_chunks, flush_keys, flush,
  flush_batch_size,
}
use kvp.Store.Read.{get_entry, get_cached, get}
use kvp.Store.Valid.{IsValid}
use kvp.Store.Safety.Writes.{put_with_mode-IsValid, flush-IsValid, caching-settle}
use kvp.Store.Safety.Reads.{get-IsValid}
use kvp.Store.Durable.Coherent.{IsCoherent, put_with_mode-IsCoherent, get-IsCoherent}
use kvp.Store.Durable.Flushing.{flush-IsCoherent}

caching-re_mark_dirty :
    (items : List FlushItem) (s : Store) → caching (re_mark_dirty items s) ≡ caching s
unfolding re_mark_dirty mark_dirty
caching-re_mark_dirty [] s = refl
caching-re_mark_dirty (it ∷ items) s = caching-re_mark_dirty items (mark_dirty it.key s)

caching-drop_if_same :
    (key : String) (t : ℕ) (o : Option Entry) (s : Store)
    → caching (drop_if_same key t o s) ≡ caching s
unfolding cache_drop
caching-drop_if_same key t none s = refl
caching-drop_if_same key t (some cur) s = ground arith

module _ ⦃c : TimeText⦄ where
  caching-put_in_mode :
      (mode : PutMode) (key : String) (value : Bytes) (expires : ℕ) (s : Store)
      → caching (put_in_mode mode key value expires s).1 ≡ caching s
  unfolding cache_put clear_dirty mark_dirty
  caching-put_in_mode put_sync key value expires s = ground arith
  caching-put_in_mode put_async key value expires s = refl
  caching-put_in_mode put_memory key value expires s = refl

  caching-get_entry :
      (key : String) (now : ℕ) (o : Option Entry) (s : Store)
      → caching (get_entry key now o s).2 ≡ caching s
  unfolding drop_expired_entry
  caching-get_entry key now none s = refl
  caching-get_entry key now (some e) s = elim (Bool-cases (after now e.expires_at)) [
    | inl late ↦ rw late (caching-drop_if_same key e.expires_at (lookup key s.cache) s)
    | inr live ↦ rw live refl
  ]

  caching-flush_chunks :
      (cs : List (List FlushItem)) (n : ℕ) (s : Store) → caching (flush_chunks cs n s).2 ≡ caching s
  unfolding flush_chunks
  caching-flush_chunks [] n s = refl
  caching-flush_chunks (items ∷ cs) n s = elim (Option-cases (flush_tx items s.db).0) [
    | inl ok ↦ rw (ok, flush_chunks) (caching-flush_chunks cs _ _ ∙ caching-settle items _)
    | inr failed ↦ rw (failed.1, flush_chunks) (caching-re_mark_dirty items _)
  ]

  caching-flush_keys : (ks : List String) (s : Store) → caching (flush_keys ks s).2 ≡ caching s
  caching-flush_keys [] s = refl
  caching-flush_keys (k ∷ ks) s =
      caching-flush_chunks (chunks flush_batch_size (snapshot (k ∷ ks) s.cache)) 0 s

  caching-flush : (s : Store) → caching (flush s).2 ≡ caching s
  unfolding flush take_dirty
  caching-flush s = elim (Bool-cases (caching s)) [
    | inl on ↦ rw on (caching-flush_keys (keys s.dirty) (record s { dirty = [] }) ∙ on)
    | inr off ↦ rw off off
  ]

  -- The memory layer is on and agrees with the rows, and the invariant holds.
  pub record IsSound (s : Store) : Type 0 where
    pub is_on : caching s ≡ true
    pub valid : IsValid s
    pub coherent : IsCoherent s

  pub put_with_mode-IsSound :
      (key : String) (value : Bytes) (ttl : ℕ) (mode : PutMode) (now : ℕ) (s : Store)
      → IsSound s
      → IsSound (put_with_mode key value ttl mode now s).1
  put_with_mode-IsSound key value ttl mode now s i = record {
    is_on =
        unfold put_with_mode in
        caching-put_in_mode (effective_mode s mode) key value (now + ttl) s ∙ i.is_on;
    valid = put_with_mode-IsValid key value ttl mode now s i.valid;
    coherent = put_with_mode-IsCoherent key value ttl mode now s i.is_on i.coherent;
  }

  pub get-IsSound : (key : String) (now : ℕ) (s : Store) → IsSound s → IsSound (get key now s).2
  get-IsSound key now s i = record {
    is_on =
        unfold get get_cached in
        rw i.is_on (caching-get_entry key now (lookup key s.cache) s ∙ i.is_on);
    valid = get-IsValid key now s i.valid;
    coherent = get-IsCoherent key now s i.is_on i.coherent;
  }

  pub flush-IsSound : (s : Store) → IsSound s → IsSound (flush s).2
  flush-IsSound s i = record {
    is_on = caching-flush s ∙ i.is_on;
    valid = flush-IsValid s i.valid;
    coherent = flush-IsCoherent s i.coherent;
  }
