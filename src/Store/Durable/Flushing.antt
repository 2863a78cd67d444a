-- ===== src/Store/Durable/Flushing.antt =====
-- internal/store/store.go: a flush keeps the agreement of the memory layer with the rows, wherever it
-- fails.
use text.Mathlib.Text.{◌==◌}
use text.Mathlib.TextPositions.{eq_refl}
use mathlib.Core.Path.{subst}
use mathlib.Core.List.{flatten}
use kvp.Prelude.{
  ℕ, ◌+◌, String, ◌≡◌, refl, ap, sym, ◌∙◌, ◌&&◌, Option, none, some, List, [], ◌∷◌, ◌++◌, arith,
  eq_iff, inl, inr, Bool-cases, Option-cases, length, chunks, flatten-chunks,
}
use kvp.Assoc.{Assoc, lookup, lookup-insert, keys}
use kvp.Store.Clock.{TimeText, same_instant}
use kvp.Store.Sql.{Row, upsert}
use kvp.Store.State.{
  Entry, Store, FlushItem, caching, mark_dirty, take_dirty, snapshot, clear_if, clear_volatile,
  re_mark_dirty,
}
use kvp.Store.Write.{row_of, settle, flush_tx, flush_chunks, flush_keys, flush, flush_batch_size}
use kvp.Store.View.{of_entry}
use kvp.Store.View.Flushes.{of_entry-clear_volatile}
use kvp.Store.Durable.{durable}
use kvp.Store.Durable.Flushed.{upsert_all, flush_tx-atomic, durable-upsert}
use kvp.Store.Durable.Coherent.{Backed, Backed-same, IsCoherent}

-- The items are what the cache holds of their keys, up to the mark.
abbrev Current : List FlushItem → Assoc Entry → Type 0
Current [] m = Unit
Current (it ∷ items) m =
    (of_entry (lookup it.key m) ≡ some (it.e.value, it.e.expires_at)) × Current items m

Current-append :
    (xs ys : List FlushItem) (m : Assoc Entry) → Current (xs ++ ys) m → Current xs m × Current ys m
Current-append [] ys m h = (tt, h)
Current-append (x ∷ xs) ys m h = let rest = Current-append xs ys m h.1 in ((h.0, rest.0), rest.1)

-- Two caches that agree up to the marks.
abbrev Alike : Assoc Entry → Assoc Entry → Type 0
Alike m m' = (j : String) → of_entry (lookup j m') ≡ of_entry (lookup j m)

Current-Alike :
    (items : List FlushItem) (m m' : Assoc Entry) → Alike m m' → Current items m → Current items m'
Current-Alike [] m m' a h = tt
Current-Alike (it ∷ items) m m' a h = (a it.key ∙ h.0, Current-Alike items m m' a h.1)

Current-snapshot : (ks : List String) (m : Assoc Entry) → Current (snapshot ks m) m
unfolding snapshot
Current-snapshot [] m = tt
Current-snapshot (k ∷ ks) m = elim (Option-cases (lookup k m)) [
  | inl out ↦ subst (λ items. Current items m) (rw (out, snapshot) refl) (Current-snapshot ks m)
  | inr inn ↦
      let one : snapshot (k ∷ ks) m ≡ (record { key = k; e = inn.0 }) ∷ snapshot ks m =
        rw (inn.1, snapshot) refl in
      subst (λ items. Current items m) (sym one) (ap of_entry inn.1, Current-snapshot ks m)
]

settle-Alike : (items : List FlushItem) (s : Store) → Alike s.cache (settle items s).cache
unfolding settle
settle-Alike [] s j = refl
settle-Alike (it ∷ items) s j =
    settle-Alike items (clear_volatile it.key it.e.expires_at s) j
    ∙ of_entry-clear_volatile it.key it.e.expires_at s j

module _ ⦃c : TimeText⦄ where
  -- The rows hold what the cache holds of the key.
  abbrev Written : List Row → Assoc Entry → String → Type 0
  Written rows m j = durable rows j ≡ of_entry (lookup j m)

  abbrev AllWritten : List Row → Assoc Entry → List FlushItem → Type 0
  AllWritten rows m [] = Unit
  AllWritten rows m (it ∷ items) = Written rows m it.key × AllWritten rows m items

  upsert-Written :
      (it : FlushItem) (rows : List Row) (m : Assoc Entry)
      → of_entry (lookup it.key m) ≡ some (it.e.value, it.e.expires_at)
      → Written (upsert (row_of it.key it.e) rows) m it.key
  upsert-Written it rows m cur =
      durable-upsert it.key it.e rows it.key ∙ rw (eq_refl it.key) (sym cur)

  upsert_all-Written :
      (items : List FlushItem) (rows : List Row) (m : Assoc Entry) (j : String)
      → Current items m
      → Written rows m j
      → Written (upsert_all items rows) m j
  unfolding upsert_all
  upsert_all-Written [] rows m j h w = w
  upsert_all-Written (it ∷ items) rows m j h w =
      upsert_all-Written items (upsert (row_of it.key it.e) rows) m j h.1
        (elim (Bool-cases (it.key == j)) [
          | inl here ↦
              subst (Written (upsert (row_of it.key it.e) rows) m) ((eq_iff it.key j).0 here)
                (upsert-Written it rows m h.0)
          | inr other ↦ durable-upsert it.key it.e rows j ∙ rw other w
        ])

  upsert_all-AllWritten :
      (items : List FlushItem) (rows : List Row) (m : Assoc Entry)
      → Current items m
      → AllWritten (upsert_all items rows) m items
  unfolding upsert_all
  upsert_all-AllWritten [] rows m h = tt
  upsert_all-AllWritten (it ∷ items) rows m h = (
    upsert_all-Written items (upsert (row_of it.key it.e) rows) m it.key h.1
        (upsert-Written it rows m h.0),
    upsert_all-AllWritten items (upsert (row_of it.key it.e) rows) m h.1,
  )

  upsert_all-Backed :
      (items : List FlushItem) (rows : List Row) (m : Assoc Entry) (j : String)
      → Current items m
      → Backed (lookup j m) (durable rows j)
      → Backed (lookup j m) (durable (upsert_all items rows) j)
  unfolding upsert_all
  upsert_all-Backed [] rows m j h b = b
  upsert_all-Backed (it ∷ items) rows m j h b =
      upsert_all-Backed items (upsert (row_of it.key it.e) rows) m j h.1
        (elim (Bool-cases (it.key == j)) [
          | inl here ↦ Backed-same (lookup j m) (durable (upsert (row_of it.key it.e) rows) j) (
              subst (Written (upsert (row_of it.key it.e) rows) m) ((eq_iff it.key j).0 here)
                (upsert-Written it rows m h.0))
          | inr other ↦
              subst (Backed (lookup j m)) (sym (durable-upsert it.key it.e rows j ∙ rw other refl))
                b
        ])

  -- To clear the mark of an entry that its row holds.
  clear_if-IsCoherent :
      (key : String) (t : ℕ) (o : Option Entry) (s : Store)
      → lookup key s.cache ≡ o
      → Written s.db.rows s.cache key
      → IsCoherent s
      → IsCoherent (clear_if key t o s)
  clear_if-IsCoherent key t none s at w b = b
  clear_if-IsCoherent key t (some cur) s at w b =
      elim (Bool-cases (cur.volatile && same_instant cur.expires_at t)) [
        | inr kept ↦ rw kept b
        | inl cleared ↦ rw cleared (λ j. elim (Bool-cases (key == j)) [
          | inr other ↦ rw (lookup-insert, other) (b j)
          | inl here ↦
              rw (lookup-insert, here)
                (λ _. ap (durable s.db.rows) (sym ((eq_iff key j).0 here)) ∙ w ∙ ap of_entry at)
        ])
      ]

  Written-Alike :
      (items : List FlushItem) (rows : List Row) (m m' : Assoc Entry)
      → Alike m m'
      → AllWritten rows m items
      → AllWritten rows m' items
  Written-Alike [] rows m m' a w = tt
  Written-Alike (it ∷ items) rows m m' a w =
      (w.0 ∙ sym (a it.key), Written-Alike items rows m m' a w.1)

  rows-clear_volatile : (key : String) (t : ℕ) (s : Store) → (clear_volatile key t s).db ≡ s.db
  unfolding clear_volatile
  rows-clear_volatile key t s = ground arith

  settle-IsCoherent :
      (items : List FlushItem) (s : Store)
      → AllWritten s.db.rows s.cache items
      → IsCoherent s
      → IsCoherent (settle items s)
  unfolding settle
  settle-IsCoherent [] s w b = b
  settle-IsCoherent (it ∷ items) s w b =
      let s' = clear_volatile it.key it.e.expires_at s in
      settle-IsCoherent items s'
        (subst (λ d. AllWritten d.rows s'.cache items)
          (sym (rows-clear_volatile it.key it.e.expires_at s))
          (Written-Alike items s.db.rows s.cache s'.cache
            (λ j. of_entry-clear_volatile it.key it.e.expires_at s j) w.1))
        (unfold clear_volatile in
          clear_if-IsCoherent it.key it.e.expires_at (lookup it.key s.cache) s refl w.0 b)

  re_mark_dirty-IsCoherent :
      (items : List FlushItem) (s : Store) → IsCoherent s → IsCoherent (re_mark_dirty items s)
  unfolding re_mark_dirty mark_dirty
  re_mark_dirty-IsCoherent [] s b = b
  re_mark_dirty-IsCoherent (it ∷ items) s b = re_mark_dirty-IsCoherent items (mark_dirty it.key s) b

  flush_chunks-IsCoherent :
      (cs : List (List FlushItem)) (n : ℕ) (s : Store)
      → Current (flatten cs) s.cache
      → IsCoherent s
      → IsCoherent (flush_chunks cs n s).2
  unfolding flush_chunks flatten
  flush_chunks-IsCoherent [] n s h b = b
  flush_chunks-IsCoherent (items ∷ cs) n s h b =
      let now_current = Current-append items (flatten cs) s.cache h in
      let s' : Store = record s { db = (flush_tx items s.db).1 } in
      elim (Option-cases (flush_tx items s.db).0) [
        | inr failed ↦
            rw (failed.1, flush_chunks)
              (re_mark_dirty-IsCoherent items s' (λ j.
                subst (λ rows. Backed (lookup j s.cache) (durable rows j))
                  (sym (flush_tx-atomic items s.db ∙ rw failed.1 refl)) (b j)))
        | inl ok ↦
            let wrote : s'.db.rows ≡ upsert_all items s.db.rows =
              flush_tx-atomic items s.db ∙ rw ok refl in
            rw (ok, flush_chunks)
              (flush_chunks-IsCoherent cs (n + length items) (settle items s')
                (Current-Alike (flatten cs) s.cache (settle items s').cache (settle-Alike items s')
                  now_current.1)
                (settle-IsCoherent items s'
                  (subst (λ rows. AllWritten rows s.cache items) (sym wrote)
                    (upsert_all-AllWritten items s.db.rows s.cache now_current.0))
                  (λ j.
                    subst (λ rows. Backed (lookup j s.cache) (durable rows j)) (sym wrote)
                      (upsert_all-Backed items s.db.rows s.cache j now_current.0 (b j)))))
      ]

  flush_keys-IsCoherent :
      (ks : List String) (s : Store) → IsCoherent s → IsCoherent (flush_keys ks s).2
  flush_keys-IsCoherent [] s b = b
  flush_keys-IsCoherent (k ∷ ks) s b =
      flush_chunks-IsCoherent (chunks flush_batch_size (snapshot (k ∷ ks) s.cache)) 0 s
        (subst (λ items. Current items s.cache)
          (sym (flatten-chunks flush_batch_size (snapshot (k ∷ ks) s.cache) (omega arith)))
          (Current-snapshot (k ∷ ks) s.cache))
        b

  -- A flush keeps the memory layer in agreement with the rows, wherever it fails.
  pub flush-IsCoherent : (s : Store) → IsCoherent s → IsCoherent (flush s).2
  unfolding flush take_dirty
  flush-IsCoherent s b = elim (Bool-cases (caching s)) [
    | inl on ↦ rw on (flush_keys-IsCoherent (keys s.dirty) (record s { dirty = [] }) b)
    | inr off ↦ rw off b
  ]
