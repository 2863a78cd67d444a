-- ===== src/Store/View/Flushes.antt =====
-- internal/store/store.go: Flush is invisible to a client.
use text.Mathlib.Text.{◌==◌}
use kvp.Prelude.{
  ℕ, String, ◌≡◌, refl, ap, sym, ◌∙◌, true, ◌&&◌, Option, none, some, List, [], ◌∷◌, eq_iff, inl,
  inr, Bool-cases, Option-cases,
}
use kvp.Prelude.Int.{pos, ltb_ℤ}
use kvp.Assoc.{lookup, lookup-insert, keys}
use kvp.Store.Clock.{TimeText, same_instant}
use kvp.Store.State.{
  Entry, Store, FlushItem, caching, clear_volatile, clear_if, re_mark_dirty, mark_dirty, take_dirty,
}
use kvp.Store.Write.{settle, flush_tx, flush_chunks, flush_keys, flush}
use kvp.Store.Safety.Writes.{mem_limit-clear_volatile, caching-settle}
use kvp.Store.View.{view, of_entry}
use kvp.Store.View.Writes.{view_on, view-db}

of_entry-clear_if :
    (key : String) (t : ℕ) (o : Option Entry) (s : Store) (j : String)
    → lookup key s.cache ≡ o
    → of_entry (lookup j (clear_if key t o s).cache) ≡ of_entry (lookup j s.cache)
of_entry-clear_if key t none s j at = refl
of_entry-clear_if key t (some cur) s j at =
    elim (Bool-cases (cur.volatile && same_instant cur.expires_at t)) [
      | inl settled ↦
          rw (settled, lookup-insert)
            (elim (Bool-cases (key == j)) [
              | inl e ↦ rw (e, ← (eq_iff key j).0 e, at)
              | inr n ↦ rw n
            ])
      | inr kept ↦ rw kept
    ]

pub of_entry-clear_volatile :
    (key : String) (t : ℕ) (s : Store) (j : String)
    → of_entry (lookup j (clear_volatile key t s).cache) ≡ of_entry (lookup j s.cache)
unfolding clear_volatile
of_entry-clear_volatile key t s j = of_entry-clear_if key t (lookup key s.cache) s j refl

module _ ⦃c : TimeText⦄ where
  view-clear_volatile :
      (key : String) (t : ℕ) (s : Store) (j : String)
      → caching s ≡ true
      → view (clear_volatile key t s) j ≡ view s j
  view-clear_volatile key t s j on =
      view_on _ j (ap (ltb_ℤ (pos 0)) (mem_limit-clear_volatile key t s) ∙ on)
      ∙ of_entry-clear_volatile key t s j
      ∙ sym (view_on s j on)

  pub view-settle :
      (items : List FlushItem) (s : Store) (j : String)
      → caching s ≡ true
      → view (settle items s) j ≡ view s j
  unfolding settle
  view-settle [] s j on = refl
  view-settle (it ∷ items) s j on =
      view-settle items (clear_volatile it.key it.e.expires_at s) j
        (ap (ltb_ℤ (pos 0)) (mem_limit-clear_volatile it.key it.e.expires_at s) ∙ on)
      ∙ view-clear_volatile it.key it.e.expires_at s j on

  view-re_mark_dirty :
      (items : List FlushItem) (s : Store) (j : String) → view (re_mark_dirty items s) j ≡ view s j
  unfolding re_mark_dirty
  view-re_mark_dirty [] s j = refl
  view-re_mark_dirty (it ∷ items) s j =
      view-re_mark_dirty items (mark_dirty it.key s) j ∙ (unfold view mark_dirty in refl)

  view-flush_chunks :
      (cs : List (List FlushItem)) (n : ℕ) (s : Store) (j : String)
      → caching s ≡ true
      → view (flush_chunks cs n s).2 j ≡ view s j
  unfolding flush_chunks
  view-flush_chunks [] n s j on = refl
  view-flush_chunks (items ∷ cs) n s j on = elim (Option-cases (flush_tx items s.db).0) [
    | inl ok ↦
        rw (ok, flush_chunks)
          (view-flush_chunks cs _ _ j (caching-settle items _ ∙ on)
            ∙ view-settle items _ j on
            ∙ view-db _ s j on)
    | inr failed ↦ rw (failed.1, flush_chunks) (view-re_mark_dirty items _ j ∙ view-db _ s j on)
  ]

  view-flush_keys :
      (ks : List String) (s : Store) (j : String)
      → caching s ≡ true
      → view (flush_keys ks s).2 j ≡ view s j
  view-flush_keys [] s j on = refl
  view-flush_keys (k ∷ ks) s j on = view-flush_chunks _ 0 s j on

  -- A flush changes nothing that a read goes by, whether it succeeds, fails part of the way or has
  -- nothing to do.
  pub view-flush : (s : Store) (j : String) → view (flush s).2 j ≡ view s j
  unfolding flush take_dirty
  view-flush s j = elim (Bool-cases (caching s)) [
    | inl on ↦
        rw on
          (view-flush_keys (keys s.dirty) (record s { dirty = [] }) j on ∙ (unfold view in refl))
    | inr off ↦ rw off
  ]
