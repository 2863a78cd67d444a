-- ===== src/Store/Durable/Waiting.antt =====
-- internal/store/store.go: only reads start goroutines; the other operations leave those that wait.
use kvp.Prelude.{
  ℕ, String, ◌≡◌, refl, ◌∙◌, Option, none, some, List, [], ◌∷◌, arith, inl, inr, Bool-cases,
  Option-cases, chunks,
}
use kvp.Assoc.{lookup, keys}
use kvp.Store.Mode.{PutMode, put_sync, put_async, put_memory}
use kvp.Store.Clock.{TimeText}
use kvp.Store.Sql.{Bytes}
use kvp.Store.State.{
  Entry, Store, FlushItem, caching, drop_expired_entry, cache_drop, drop_if_same, cache_put,
  clear_dirty, mark_dirty, clear_volatile, re_mark_dirty, take_dirty, snapshot,
}
use kvp.Store.Write.{
  put_in_mode, flush, flush_keys, flush_chunks, flush_tx, settle, flush_batch_size,
}

stragglers-settle :
    (chunk : List FlushItem) (s : Store) → (settle chunk s).stragglers ≡ s.stragglers
unfolding settle
stragglers-settle [] s = refl
stragglers-settle (it ∷ chunk) s =
    stragglers-settle chunk (clear_volatile it.key it.e.expires_at s)
    ∙ (unfold clear_volatile in ground arith)

stragglers-re_mark_dirty :
    (items : List FlushItem) (s : Store) → (re_mark_dirty items s).stragglers ≡ s.stragglers
unfolding re_mark_dirty mark_dirty
stragglers-re_mark_dirty [] s = refl
stragglers-re_mark_dirty (it ∷ items) s = stragglers-re_mark_dirty items (mark_dirty it.key s)

stragglers-drop_if_same :
    (key : String) (t : ℕ) (o : Option Entry) (s : Store)
    → (drop_if_same key t o s).stragglers ≡ s.stragglers
unfolding cache_drop
stragglers-drop_if_same key t none s = refl
stragglers-drop_if_same key t (some cur) s = ground arith

pub stragglers-drop_expired_entry :
    (key : String) (t : ℕ) (s : Store) → (drop_expired_entry key t s).stragglers ≡ s.stragglers
unfolding drop_expired_entry
stragglers-drop_expired_entry key t s = stragglers-drop_if_same key t (lookup key s.cache) s

module _ ⦃c : TimeText⦄ where
  pub stragglers-put_in_mode :
      (mode : PutMode) (key : String) (value : Bytes) (expires : ℕ) (s : Store)
      → (put_in_mode mode key value expires s).1.stragglers ≡ s.stragglers
  unfolding cache_put clear_dirty mark_dirty
  stragglers-put_in_mode put_sync key value expires s = ground arith
  stragglers-put_in_mode put_async key value expires s = refl
  stragglers-put_in_mode put_memory key value expires s = refl

  stragglers-flush_chunks :
      (cs : List (List FlushItem)) (n : ℕ) (s : Store)
      → (flush_chunks cs n s).2.stragglers ≡ s.stragglers
  unfolding flush_chunks
  stragglers-flush_chunks [] n s = refl
  stragglers-flush_chunks (items ∷ cs) n s = elim (Option-cases (flush_tx items s.db).0) [
    | inl ok ↦ rw (ok, flush_chunks) (stragglers-flush_chunks cs _ _ ∙ stragglers-settle items _)
    | inr failed ↦ rw (failed.1, flush_chunks) (stragglers-re_mark_dirty items _)
  ]

  stragglers-flush_keys :
      (ks : List String) (s : Store) → (flush_keys ks s).2.stragglers ≡ s.stragglers
  stragglers-flush_keys [] s = refl
  stragglers-flush_keys (k ∷ ks) s =
      stragglers-flush_chunks (chunks flush_batch_size (snapshot (k ∷ ks) s.cache)) 0 s

  pub stragglers-flush : (s : Store) → (flush s).2.stragglers ≡ s.stragglers
  unfolding flush take_dirty
  stragglers-flush s = elim (Bool-cases (caching s)) [
    | inl on ↦ rw on (stragglers-flush_keys (keys s.dirty) (record s { dirty = [] }))
    | inr off ↦ rw off refl
  ]
