-- ===== src/Store/View/Sweeps.antt =====
-- internal/store/store.go: DeleteExpired takes from the view exactly what has expired.
use text.Mathlib.Text.{◌==◌}
use kvp.Prelude.{
  ℕ, String, ◌≡◌, refl, Bool, true, false, Option, none, some, [], ◌∷◌, ap, ◌∙◌, arith, eq_iff, inl,
  inr, Bool-cases, if◌then◌else◌, ltb,
}
use kvp.Prelude.Int.{ℤ, pos, ltb_ℤ}
use kvp.Assoc.{Assoc, IsMap, lookup, lookup-erase}
use kvp.Store.Clock.{TimeText}
use kvp.Store.Sql.{ask, any_row, expired_row}
use kvp.Store.State.{Entry, Store, caching, cache_drop, purge_expired}
use kvp.Store.Expire.{sweep_db, delete_expired}
use kvp.Store.Valid.{IsValid}
use kvp.Store.View.{view, of_entry}
use kvp.Store.View.Writes.{view_on, view-db}
use kvp.Store.View.Reads.{until}

-- What a sweep at `now` removes.
abbrev due : ℕ → Option Entry → Bool
due now none = false
due now (some e) = ltb e.expires_at now

lookup-cache_drop :
    (k j : String) (s : Store)
    → lookup j (cache_drop k s).cache ≡ (if k == j then none else lookup j s.cache)
unfolding cache_drop
lookup-cache_drop k j s = lookup-erase k j s.cache

-- The loop over a list of entries removes the keys whose entry in it has expired.
lookup-purge_expired :
    (now : ℕ) (m : Assoc Entry) (s : Store) (j : String)
    → IsMap m
    → lookup j (purge_expired now m s).cache
      ≡ (if due now (lookup j m) then none else lookup j s.cache)
unfolding purge_expired lookup
lookup-purge_expired now [] s j h = refl
lookup-purge_expired now ((k, e) ∷ m) s j h = ground (
  arith,
  lookup-purge_expired now m (cache_drop k s) j h.1,
  lookup-purge_expired now m s j h.1,
  lookup-cache_drop k j s,
  eq_iff k j,
  h.0,
)

mem_limit-purge_expired :
    (now : ℕ) (m : Assoc Entry) (s : Store) → (purge_expired now m s).mem_limit ≡ s.mem_limit
unfolding purge_expired
mem_limit-purge_expired now [] s = refl
mem_limit-purge_expired now ((k, e) ∷ m) s =
    mem_limit-purge_expired now m (if ltb e.expires_at now then cache_drop k s else s)
    ∙ (unfold cache_drop in ground arith)

of_entry-due :
    (now : ℕ) (o : Option Entry) → of_entry (if due now o then none else o) ≡ until now (of_entry o)
of_entry-due now none = refl
of_entry-due now (some e) = ground arith

module _ ⦃c : TimeText⦄ where
  view-sweep_db :
      (limit : ℤ) (text : String) (s : Store) (j : String)
      → caching s ≡ true
      → view (sweep_db limit text s).2 j ≡ view s j
  unfolding sweep_db
  view-sweep_db limit text s j on = elim (Bool-cases (ask s.db).0) [
    | inl ok ↦ elim (Bool-cases (any_row (expired_row text) (ask s.db).1.rows)) [
      | inl some_old ↦ rw (ok, some_old) (view-db _ s j on)
      | inr none_old ↦ rw (ok, none_old) (view-db _ s j on)
    ]
    | inr failed ↦ rw failed (view-db _ s j on)
  ]

  -- With the memory layer a sweep, also one whose statements fail or whose limit is small, takes
  -- from the view exactly the keys that have expired.
  pub view-delete_expired :
      (limit : ℤ) (now : ℕ) (s : Store) (j : String)
      → IsValid s
      → caching s ≡ true
      → view (delete_expired limit now s).2 j ≡ until now (view s j)
  unfolding delete_expired
  view-delete_expired limit now s j v on = rw on (
      view-sweep_db limit _ swept j swept_on
      ∙ view_on swept j swept_on
      ∙ rw (lookup-purge_expired now s.cache s j v.cache_map, view_on s j on)
          (of_entry-due now (lookup j s.cache)))
    where
      swept : Store
      swept = purge_expired now s.cache s

      swept_on : caching swept ≡ true
      swept_on = ap (ltb_ℤ (pos 0)) (mem_limit-purge_expired now s.cache s) ∙ on
