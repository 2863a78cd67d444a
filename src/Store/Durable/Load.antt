-- ===== src/Store/Durable/Load.antt =====
-- internal/store/store.go: what Open reads back, and what the writes leave for it.
use text.Mathlib.Text.{◌==◌}
use mathlib.Core.Path.{subst}
use kvp.Prelude.{
  ℕ, suc, zero, String, ◌≡◌, ◌≢◌, refl, Bool, true, false, Option, none, some, List, [], ◌∷◌, ap,
  ◌∙◌, arith, eq_iff, inl, inr, Bool-cases, Option-cases, some_inj, if◌then◌else◌,
}
use kvp.Prelude.Int.{ℤ, pos, ltb_ℤ}
use kvp.Assoc.{lookup, lookup-insert}
use kvp.Store.Clock.{TimeText}
use kvp.Store.Sql.{Bytes, Row, Db, ask, select_row}
use kvp.Store.Rows.{IsKeyed, rows-ask, ask-quiet}
use kvp.Store.State.{Error, Store, caching}
use kvp.Store.Read.{
  load_entry, load_loop, load_cache, migrate_loop, opened, open_migrated, open_store,
}
use kvp.Store.Safety.Opening.{rows-migrate_loop, mem_limit-load_entry}
use kvp.Store.View.{view, of_entry}
use kvp.Store.View.Writes.{view_on, view_off}
use kvp.Store.View.Reads.{until}
use kvp.Store.Durable.{durable}

-- The loaded entry where there is one that is live, else what was there before.
abbrev or_else : Option (Bytes × ℕ) → Option (Bytes × ℕ) → Option (Bytes × ℕ)
or_else none o = o
or_else (some p) o = some p

or_else-none : (o : Option (Bytes × ℕ)) → or_else o none ≡ o
or_else-none none = refl
or_else-none (some p) = refl

pub db-load_entry : (q : Row) (now t : ℕ) (s : Store) → (load_entry q now t s).db ≡ s.db
db-load_entry q now t s = ground arith

module _ ⦃c : TimeText⦄ where
  lookup-load_entry :
      (q : Row) (now t : ℕ) (s : Store) (j : String)
      → of_entry (lookup j (load_entry q now t s).cache) ≡ (
          if q.key == j
          then or_else (until now (some (q.value, t))) (of_entry (lookup j s.cache))
          else of_entry (lookup j s.cache))
  lookup-load_entry q now t s j = ground (
    arith,
    lookup-insert q.key j (record { value = q.value; expires_at = t; volatile = false }) s.cache,
  )

  durable-cons :
      (q : Row) (rows : List Row) (j : String) (t : ℕ)
      → c.parse q.expires_at ≡ some t
      → durable (q ∷ rows) j ≡ (if q.key == j then some (q.value, t) else durable rows j)
  unfolding durable select_row
  durable-cons q rows j t at = elim (Bool-cases (q.key == j)) [ inl e ↦ rw (e, at) | inr n ↦ rw n ]

  durable-absent : (rows : List Row) (j : String) → select_row j rows ≡ none → durable rows j ≡ none
  unfolding durable
  durable-absent rows j h = rw h

  lookup-load_loop :
      (now : ℕ) (rows : List Row) (s : Store) (j : String)
      → IsKeyed rows
      → (load_loop now rows s).0 ≡ none
      → of_entry (lookup j (load_loop now rows s).1.cache)
        ≡ or_else (until now (durable rows j)) (of_entry (lookup j s.cache))
  unfolding load_loop
  lookup-load_loop now [] s j k h = unfold durable select_row in refl
  lookup-load_loop now (q ∷ rows) s j k h = elim (Bool-cases (ask s.db).0) [
    | inr failed ↦ cc (rw (failed, load_loop) at h)
    | inl ok ↦ elim (Option-cases (c.parse q.expires_at)) [
      | inl bad ↦ cc (rw (ok, load_loop, bad) at h)
      | inr good ↦
          rw (ok, load_loop, good.1)
            (lookup-load_loop now rows (load_entry q now good.0 (record s { db = (ask s.db).1 })) j
                k.1 (rw (ok, load_loop, good.1) at h)
              ∙ rw (lookup-load_entry, durable-cons q rows j good.0 good.1)
                  (elim (Bool-cases (q.key == j)) [
                    | inl e ↦ rw (e, durable-absent rows j (rw ((eq_iff q.key j).0 e) at k.0))
                    | inr n ↦ rw n
                  ]))
    ]
  ]

  -- With the memory layer the opened store shows the live rows; without it, all of them.
  abbrev pub reopened : ℤ → ℕ → Option (Bytes × ℕ) → Option (Bytes × ℕ)
  reopened limit now o = if ltb_ℤ (pos 0) limit then until now o else o

  pub mem_limit-load_loop :
      (now : ℕ) (rows : List Row) (s : Store) → (load_loop now rows s).1.mem_limit ≡ s.mem_limit
  unfolding load_loop
  mem_limit-load_loop now [] s = refl
  mem_limit-load_loop now (q ∷ rows) s = elim (Bool-cases (ask s.db).0) [
    | inr failed ↦ rw (failed, load_loop)
    | inl ok ↦ elim (Option-cases (c.parse q.expires_at)) [
      | inl bad ↦ rw (ok, load_loop, bad)
      | inr good ↦
          rw (ok, load_loop, good.1)
            (mem_limit-load_loop now rows _
              ∙ mem_limit-load_entry q now good.0 (record s { db = (ask s.db).1 }))
    ]
  ]

  view-load_cache :
      (now : ℕ) (s : Store) (j : String)
      → IsKeyed s.db.rows
      → caching s ≡ true
      → s.cache ≡ []
      → (load_cache now s).0 ≡ none
      → view (load_cache now s).1 j ≡ until now (durable s.db.rows j)
  unfolding load_cache
  view-load_cache now s j k on empty h = elim (Bool-cases (ask s.db).0) [
    | inr failed ↦ cc (rw failed at h)
    | inl ok ↦ rw ok (
        view_on _ j (ap (ltb_ℤ (pos 0)) (mem_limit-load_loop now _ _) ∙ on)
        ∙ lookup-load_loop now (ask s.db).1.rows (record s { db = (ask s.db).1 }) j (rw rows-ask k)
            (rw ok at h)
        ∙ rw (rows-ask, empty) (unfold lookup in or_else-none (until now (durable s.db.rows j))))
  ]

  view-opened :
      (s : Store) (j : String) (o : Option (Bytes × ℕ)) (r : Option Error × Store)
      → (r.0 ≡ none → view r.1 j ≡ o)
      → (opened r).1 ≡ some s
      → view s j ≡ o
  view-opened s j o (none, r) at h = subst (λ s. view s j ≡ o) (some_inj h) (at refl)
  view-opened s j o (some err, r) at h = cc

  view-open_migrated :
      (limit : ℤ) (now : ℕ) (r : Bool × Db) (s : Store) (j : String)
      → IsKeyed r.1.rows
      → (open_migrated limit now r).1 ≡ some s
      → view s j ≡ reopened limit now (durable r.1.rows j)
  view-open_migrated limit now (false, d) s j k h = cc
  view-open_migrated limit now (true, d) s j k h = elim (Bool-cases (ltb_ℤ (pos 0) limit)) [
    | inl on ↦
        rw on
          (view-opened s j _ (load_cache now _) (view-load_cache now _ j k on refl) (rw on at h))
    | inr off ↦ rw off (
        subst (λ s. view s j ≡ durable d.rows j) (some_inj (rw off at h))
          (unfold durable in view_off _ j off))
  ]

  -- A store that opens shows what the rows hold: with the memory layer the live rows, without it
  -- all of them.
  pub view-open_store :
      (path : String) (limit : ℤ) (now : ℕ) (d : Db) (s : Store)
      → IsKeyed d.rows
      → (open_store path limit now d).1 ≡ some s
      → (j : String) → view s j ≡ reopened limit now (durable d.rows j)
  unfolding open_store
  view-open_store path limit now d s k h j = elim (Bool-cases (path == "")) [
    | inl empty ↦ cc (rw empty at h)
    | inr named ↦ elim (Bool-cases (ask d).0) [
      | inl ok ↦
          subst (λ rows. view s j ≡ reopened limit now (durable rows j))
            (rows-migrate_loop 5 (ask d).1 ∙ rows-ask d)
            (view-open_migrated limit now (migrate_loop 5 (ask d).1) s j
              (rw (rows-migrate_loop, rows-ask) k) (rw (named, ok) at h))
      | inr failed ↦ cc (rw (named, failed) at h)
    ]
  ]

  -- Every row holds a time that parses.
  abbrev pub HasTimes : List Row → Type 0
  HasTimes [] = Unit
  HasTimes (q ∷ rows) = ((t : ℕ) × (c.parse q.expires_at ≡ some t)) × HasTimes rows

  load_loop-total :
      (now : ℕ) (rows : List Row) (s : Store)
      → s.db.outcomes ≡ []
      → HasTimes rows
      → (load_loop now rows s).0 ≡ none
  unfolding load_loop
  load_loop-total now [] s quiet t = rw (ask-quiet s.db quiet)
  load_loop-total now (q ∷ rows) s quiet t =
      rw (ask-quiet s.db quiet, load_loop, t.0.1, ask-quiet s.db quiet)
        (load_loop-total now rows (load_entry q now t.0.0 s)
          (ap (λ d. d.outcomes) (db-load_entry q now t.0.0 s) ∙ quiet) t.1)

  load_cache-total :
      (now : ℕ) (s : Store) → s.db.outcomes ≡ [] → HasTimes s.db.rows → (load_cache now s).0 ≡ none
  unfolding load_cache
  load_cache-total now s quiet t =
      rw (ask-quiet s.db quiet) (load_loop-total now s.db.rows s quiet t)

  opened-total : (r : Option Error × Store) → r.0 ≡ none → (s : Store) × (opened r ≡ (none, some s))
  opened-total (none, s) h = (s, refl)
  opened-total (some err, s) h = cc

  open_migrated-total :
      (limit : ℤ) (now : ℕ) (d : Db)
      → d.outcomes ≡ []
      → HasTimes d.rows
      → (s : Store) × (open_migrated limit now (true, d) ≡ (none, some s))
  open_migrated-total limit now d quiet t = elim (Bool-cases (ltb_ℤ (pos 0) limit)) [
    | inl on ↦ rw on (opened-total (load_cache now _) (load_cache-total now _ quiet t))
    | inr off ↦ rw off (_, refl)
  ]

  migrate_loop-quiet : (n : ℕ) (d : Db) → d.outcomes ≡ [] → migrate_loop n d ≡ (true, d)
  unfolding migrate_loop
  migrate_loop-quiet zero d quiet = refl
  migrate_loop-quiet (suc n) d quiet =
      rw (ask-quiet d quiet, migrate_loop, ask-quiet d quiet) (migrate_loop-quiet n d quiet)

  opens :
      (path : String) (limit : ℤ) (now : ℕ) (d : Db)
      → path ≢ ""
      → d.outcomes ≡ []
      → HasTimes d.rows
      → (s : Store) × (open_store path limit now d ≡ (none, some s))
  unfolding open_store
  opens path limit now d named quiet t = elim (Bool-cases (path == "")) [
    | inl empty ↦ absurd (named ((eq_iff path "").0 empty))
    | inr other ↦
        rw (other, ask-quiet d quiet, migrate_loop-quiet 5 d quiet)
          (open_migrated-total limit now d quiet t)
  ]

  -- Open on a named path, on rows with distinct keys whose expiries parse, gives a store where no
  -- call fails, and the store shows what the rows hold: with the memory layer the rows that have not
  -- expired, without it all of them.
  pub open_store_lem :
      (path : String) (limit : ℤ) (now : ℕ) (d : Db)
      → path ≢ ""
      → d.outcomes ≡ []
      → IsKeyed d.rows
      → HasTimes d.rows
      → (s : Store) × (open_store path limit now d ≡ (none, some s))
        × ((j : String) → view s j ≡ reopened limit now (durable d.rows j))
  open_store_lem path limit now d named quiet k t =
      let (s, e) = opens path limit now d named quiet t in
      (s, e, view-open_store path limit now d s k (ap (λ r. r.1) e))
