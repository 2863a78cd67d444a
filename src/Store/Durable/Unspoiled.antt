-- ===== src/Store/Durable/Unspoiled.antt =====
-- internal/store/store.go: the store that agrees with its rows, together with the goroutines that
-- wait; reads, writes and flushes keep it, with the clock's readings in order.
use text.Mathlib.Text.{◌==◌}
use text.Mathlib.TextPositions.{eq_refl}
use mathlib.Core.Path.{subst}
use kvp.Prelude.{
  if◌then◌else◌, ℕ, ◌+◌, ◌≤◌, String, Bool, true, false, ◌≡◌, refl, sym, ◌∙◌, Option, none, some,
  arith, inl, inr, Bool-cases, Option-cases,
}
use kvp.Assoc.{lookup}
use kvp.Store.Mode.{PutMode}
use kvp.Store.Clock.{TimeText, after}
use kvp.Store.Sql.{Bytes, Db}
use kvp.Store.State.{Error, Entry, Store, caching}
use kvp.Store.Read.{GetResult, get_entry, get_cached, get}
use kvp.Store.Write.{put_with_mode, effective_mode, flush}
use kvp.Store.Rows.{IsKeyed}
use kvp.Store.Valid.{with_db-IsValid}
use kvp.Store.View.{view}
use kvp.Store.View.Reads.{until, view-get}
use kvp.Store.View.Writes.{view_on, view-db, view-put_with_mode, view-put_failed}
use kvp.Store.View.Flushes.{view-flush}
use kvp.Store.Durable.{durable}
use kvp.Store.Durable.Coherent.{Backed}
use kvp.Store.Durable.Sound.{IsSound, get-IsSound, put_with_mode-IsSound, flush-IsSound}
use kvp.Store.Durable.Pending.{
  AllLate, Outlives, Follows, AllLate-Follows, Follows-same, AllLate-add,
}
use kvp.Store.Durable.Waiting.{
  stragglers-drop_expired_entry, stragglers-put_in_mode, stragglers-flush,
}

module _ ⦃c : TimeText⦄ where
  -- The store is sound at the time `t`, and no goroutine that waits will delete a live row.
  pub record IsUnspoiled (t : ℕ) (s : Store) : Type 0 where
    pub sound : IsSound s
    pub late : AllLate t (view s) s.stragglers

  -- Time passes, and the goroutines stay the same.
  pub step-IsUnspoiled :
      (t t' : ℕ) (s s' : Store)
      → t ≤ t'
      → IsUnspoiled t s
      → IsSound s'
      → s'.stragglers ≡ s.stragglers
      → ((j : String) → Follows t (view s j) (view s' j))
      → IsUnspoiled t' s'
  step-IsUnspoiled t t' s s' h u i same f = record {
    sound = i;
    late =
        subst (AllLate t' (view s')) (sym same)
          (AllLate-Follows t t' (view s) (view s') s.stragglers h f u.late);
  }

  -- Calls into the database that change no row.
  pub calls-IsUnspoiled :
      (t : ℕ) (s : Store) (d : Db)
      → d.rows ≡ s.db.rows
      → IsUnspoiled t s
      → IsUnspoiled t (record s { db = d })
  calls-IsUnspoiled t s d rows u =
      step-IsUnspoiled t t s (record s { db = d }) (omega arith) u
        (record {
          is_on = u.sound.is_on;
          valid =
              with_db-IsValid d u.sound.valid (subst IsKeyed (sym rows) u.sound.valid.rows_keyed);
          coherent = λ j.
              subst (λ r. Backed (lookup j s.cache) (durable r j)) (sym rows) (u.sound.coherent j);
        })
        refl λ j. Follows-same t _ _ (view-db d s j u.sound.is_on)

  pub IsUnspoiled-later : (t t' : ℕ) (s : Store) → t ≤ t' → IsUnspoiled t s → IsUnspoiled t' s
  IsUnspoiled-later t t' s h u =
      step-IsUnspoiled t t' s s h u u.sound refl λ j. Follows-same t (view s j) (view s j) refl

  pub flush-IsUnspoiled : (t : ℕ) (s : Store) → IsUnspoiled t s → IsUnspoiled t (flush s).2
  flush-IsUnspoiled t s u =
      step-IsUnspoiled t t s (flush s).2 (omega arith) u (flush-IsSound s u.sound)
        (stragglers-flush s) λ j. Follows-same t _ _ (view-flush s j)

  Follows-new :
      (now ttl : ℕ) (value : Bytes) (b : Bool) (old : Option (Bytes × ℕ))
      → Follows now old (if b then some (value, now + ttl) else old)
  Follows-new now ttl value true old x past out = omega (arith, past)
  Follows-new now ttl value false old x past out = out

  pub put_with_mode-IsUnspoiled :
      (key : String) (value : Bytes) (ttl : ℕ) (mode : PutMode) (now : ℕ) (s : Store)
      → IsUnspoiled now s
      → IsUnspoiled now (put_with_mode key value ttl mode now s).1
  put_with_mode-IsUnspoiled key value ttl mode now s u =
      step-IsUnspoiled now now s s' (omega arith) u
        (put_with_mode-IsSound key value ttl mode now s u.sound)
        (unfold put_with_mode in
          stragglers-put_in_mode (effective_mode s mode) key value (now + ttl) s)
        λ j. elim (Option-cases (put_with_mode key value ttl mode now s).0) [
          | inl ok ↦
              subst (Follows now (view s j))
                (sym (view-put_with_mode key value ttl mode now s ok j))
                (Follows-new now ttl value (key == j) (view s j))
          | inr (e, failed) ↦
              Follows-same now _ _
                (view-put_failed key value ttl mode now s j λ h. cc (sym failed ∙ h))
        ]
    where
      s' : Store
      s' = (put_with_mode key value ttl mode now s).1

  -- A read starts a goroutine only for an entry that has expired, whose key then holds nothing.
  get_entry-AllLate :
      (key : String) (now : ℕ) (o : Option Entry) (s : Store) (held : String → Option (Bytes × ℕ))
      → AllLate now held s.stragglers
      → ((e : Entry) → o ≡ some e → after now e.expires_at ≡ true → held key ≡ none)
      → AllLate now held (get_entry key now o s).2.stragglers
  get_entry-AllLate key now none s held a gone = a
  get_entry-AllLate key now (some e) s held a gone = elim (Bool-cases (after now e.expires_at)) [
    | inr live ↦ rw live a
    | inl old ↦ rw old (
        AllLate-add now held _ _
          (subst (AllLate now held) (sym (stragglers-drop_expired_entry key e.expires_at s)) a)
          (
            e.expires_at,
            refl,
            ground arith,
            subst (Outlives e.expires_at) (sym (gone e refl old)) tt,
          ))
  ]

  Follows-until :
      (now : ℕ) (b : Bool) (old : Option (Bytes × ℕ))
      → Follows now old (if b then until now old else old)
  Follows-until now false old x past out = out
  Follows-until now true none x past out = tt
  Follows-until now true (some (value, t)) x past out = elim (Bool-cases (after now t)) [
    | inl gone ↦ rw gone tt
    | inr live ↦ rw live out
  ]

  error-get_entry :
      (key : String) (now : ℕ) (o : Option Entry) (s : Store) → (get_entry key now o s).1 ≡ none
  error-get_entry key now none s = refl
  error-get_entry key now (some e) s = ground arith

  pub get-IsUnspoiled :
      (key : String) (now : ℕ) (s : Store) → IsUnspoiled now s → IsUnspoiled now (get key now s).2
  get-IsUnspoiled key now s u = record {
    sound = get-IsSound key now s u.sound;
    late =
        subst
          (λ (r : GetResult × Option Error × Store).
            AllLate now (view (get key now s).2) r.2.stragglers)
          (sym read)
          (get_entry-AllLate key now (lookup key s.cache) s (view (get key now s).2)
            (AllLate-Follows now now (view s) (view (get key now s).2) s.stragglers (omega arith)
              (λ j.
                subst (Follows now (view s j)) (sym (seen j))
                  (Follows-until now (key == j) (view s j)))
              u.late)
            λ e at old. seen key ∙ rw (eq_refl key, view_on s key on, at, old) refl);
  }
    where
      on : caching s ≡ true
      on = u.sound.is_on

      read : get key now s ≡ get_entry key now (lookup key s.cache) s
      read = unfold get get_cached in rw on refl

      seen :
          (j : String)
          → view (get key now s).2 j ≡ (if key == j then until now (view s j) else view s j)
      seen j =
          view-get key now s u.sound.valid
            (rw read (error-get_entry key now (lookup key s.cache) s)) j
