-- ===== src/Commands/Restart.antt =====
-- cmd/kvp/main.go: what survives a shutdown and a restart.
use mathlib.Core.Path.{subst}
use kvp.Prelude.{
  ℕ, String, Bool, true, false, ◌≡◌, refl, sym, ◌∙◌, none, some, List, [], ◌∷◌, Bool-cases, inl,
  inr, if◌then◌else◌, leb, arith,
}
use kvp.Prelude.Int.{ℤ, pos, ltb_ℤ}
use kvp.Assoc.{lookup}
use kvp.Store.Clock.{TimeText}
use kvp.Store.Sql.{Db, ask}
use kvp.Store.Rows.{IsKeyed, rows-ask}
use kvp.Store.State.{Entry, Store, caching}
use kvp.Store.Read.{open_store, run_stragglers}
use kvp.Store.Write.{flush}
use kvp.Store.Expire.{usage}
use kvp.Store.Backup.{Stamp}
use kvp.Store.View.{view}
use kvp.Store.Durable.Load.{reopened}
use kvp.Store.Durable.Unspoiled.{
  IsUnspoiled, IsUnspoiled-later, calls-IsUnspoiled, get-IsUnspoiled, put_with_mode-IsUnspoiled,
  flush-IsUnspoiled,
}
use kvp.Store.Durable.Deletions.{run_straggler-IsUnspoiled, open_store-IsUnspoiled}
use kvp.Store.Durable.Restart.{is_durable, restart_keeps}
use kvp.Server.Http.{Net}
use kvp.Server.Keeps.{handle-keeps}
use kvp.Cleanup.{Pass, Evictor, run_flush, run_evict, maybe_evict, enter}
use kvp.Config.Parse.{Config}
use kvp.Telemetry.Setup.{Closers}
use kvp.Commands.Keeps.{Calls, flush_pass-store, gauge_tick-keeps, backup_tick-keeps, probed-keeps}
use kvp.Commands.{Process, stop, evict_with, eviction_limit}
use kvp.Commands.Events.{
  Event, straggled, after_evict, requested, after_write, eviction_tick, expiry_tick, backup_tick,
  flush_tick, gauge_tick, probed, react, react_all,
}

-- Whether an event sweeps and evicts nothing, and is a request only if the clock does not show an
-- earlier time for it than `since`. An eviction is let through that finds the memory layer below
-- the limit.
abbrev pub is_traffic : ℕ → Process → Event → Bool
is_traffic since p (requested t r) = leb since t.store_at
is_traffic since p (after_write checked marked) =
    ltb_ℤ p.server.store.cache_bytes (eviction_limit p.cfg)
is_traffic since p (eviction_tick checked marked) =
    ltb_ℤ p.server.store.cache_bytes (eviction_limit p.cfg)
is_traffic since p (expiry_tick now) = false
is_traffic since p other = true

abbrev pub clock_after : ℕ → Event → ℕ
clock_after since (requested t r) = t.store_at
clock_after since other = since

module _ ⦃c : TimeText⦄ ⦃net : Net⦄ ⦃st : Stamp⦄ where
  abbrev pub all_traffic : ℕ → List Event → Process → Bool
  all_traffic since [] p = true
  all_traffic since (e ∷ es) p =
      let rest = all_traffic (clock_after since e) es (react e p) in
      if is_traffic since p e then rest else false

  -- The time of the last request.
  abbrev pub clock_at_end : ℕ → List Event → ℕ
  clock_at_end since [] = since
  clock_at_end since (e ∷ es) = clock_at_end (clock_after since e) es

module _ ⦃c : TimeText⦄ where
  Calls-IsUnspoiled : (t : ℕ) (s s' : Store) → Calls s s' → IsUnspoiled t s → IsUnspoiled t s'
  Calls-IsUnspoiled t s s' (d, rows, same) u =
      subst (IsUnspoiled t) (sym same) (calls-IsUnspoiled t s d rows u)

  -- An eviction that finds the memory layer below its limit does nothing.
  calm_evict :
      (cfg : Config) (checked marked : ℕ) (e : Evictor) (s : Store)
      → caching s ≡ true
      → ltb_ℤ s.cache_bytes (eviction_limit cfg) ≡ true
      → (evict_with cfg checked marked e s).0.store ≡ s
  calm_evict cfg checked marked e s on below =
      unfold maybe_evict run_evict usage in
      elim (Bool-cases (enter checked marked e).0) [
        | inl go ↦ rw (go, on, below) refl
        | inr busy ↦ rw busy refl
      ]

  after_evict-store :
      (p : Process) (r : Pass × Evictor) → (after_evict p r).server.store ≡ r.0.store
  after_evict-store p (pass, e) = refl

  evict-IsUnspoiled :
      (t checked marked : ℕ) (p : Process)
      → ltb_ℤ p.server.store.cache_bytes (eviction_limit p.cfg) ≡ true
      → IsUnspoiled t p.server.store
      → IsUnspoiled t
          (after_evict p (evict_with p.cfg checked marked p.evictor p.server.store)).server.store
  evict-IsUnspoiled t checked marked p below u =
      subst (IsUnspoiled t)
        (sym (
          after_evict-store p (evict_with p.cfg checked marked p.evictor p.server.store)
          ∙ calm_evict p.cfg checked marked p.evictor p.server.store u.sound.is_on below))
        u

module _ ⦃c : TimeText⦄ ⦃net : Net⦄ ⦃st : Stamp⦄ where
  react-IsUnspoiled :
      (since : ℕ) (e : Event) (p : Process)
      → is_traffic since p e ≡ true
      → IsUnspoiled since p.server.store
      → IsUnspoiled (clock_after since e) (react e p).server.store
  unfolding react run_flush
  react-IsUnspoiled since (requested t r) p q u =
      handle-keeps t.store_at (IsUnspoiled t.store_at) (λ key. get-IsUnspoiled key t.store_at)
        (λ key value ttl mode. put_with_mode-IsUnspoiled key value ttl mode t.store_at) t r p.server
        refl (IsUnspoiled-later since t.store_at p.server.store (ground (arith, q)) u)
  react-IsUnspoiled since (after_write checked marked) p q u =
      evict-IsUnspoiled since checked marked p q u
  react-IsUnspoiled since (eviction_tick checked marked) p q u =
      evict-IsUnspoiled since checked marked p q u
  react-IsUnspoiled since (expiry_tick now) p q u = cc q
  react-IsUnspoiled since flush_tick p q u =
      subst (IsUnspoiled since) (sym (flush_pass-store (flush p.server.store)))
        (flush-IsUnspoiled since p.server.store u)
  react-IsUnspoiled since gauge_tick p q u =
      gauge_tick-keeps (IsUnspoiled since) (Calls-IsUnspoiled since) p u
  react-IsUnspoiled since (backup_tick now) p q u =
      backup_tick-keeps (IsUnspoiled since) (Calls-IsUnspoiled since) now p u
  react-IsUnspoiled since (probed r) p q u =
      probed-keeps (IsUnspoiled since) (Calls-IsUnspoiled since) r p u
  react-IsUnspoiled since (straggled n) p q u = run_straggler-IsUnspoiled since n p.server.store u

  react_all-IsUnspoiled :
      (since : ℕ) (es : List Event) (p : Process)
      → all_traffic since es p ≡ true
      → IsUnspoiled since p.server.store
      → IsUnspoiled (clock_at_end since es) (react_all es p).server.store
  unfolding react_all
  react_all-IsUnspoiled since [] p q u = u
  react_all-IsUnspoiled since (e ∷ es) p q u = elim (Bool-cases (is_traffic since p e)) [
    | inl traffic ↦
        react_all-IsUnspoiled (clock_after since e) es (react e p) (rw traffic at q)
          (react-IsUnspoiled since e p traffic u)
    | inr other ↦ cc (rw other at q)
  ]

  -- A process whose store was opened with the memory layer on has been through requests, at times in
  -- order, the background deletions that reads start, flushes, samples, backups, probes and passes of
  -- the eviction that find the memory layer below the limit, in any order and with any outcomes; no
  -- expiry sweep is among them. It stops with a flush that succeeds, and any of the background
  -- deletions that are left run after the flush. A store that is then opened on the database's rows
  -- shows every entry that the memory layer held at the stop and that was not volatile or whose key
  -- was dirty: with a memory layer until the entry expires, without one in any case.
  pub restart_lem :
      (path : String) (limit : ℤ) (now : ℕ) (d : Db) (p : Process) (since : ℕ) (es : List Event)
      (public_ok admin_ok : Bool) (closers : Closers) (ns : List ℕ) (path' : String) (limit' : ℤ)
      (later : ℕ) (d' : Db) (s' : Store) (key : String) (e : Entry)
      → IsKeyed d.rows
      → ltb_ℤ (pos 0) limit ≡ true
      → (open_store path limit now d).1 ≡ some p.server.store
      → all_traffic since es p ≡ true
      → (flush (react_all es p).server.store).1 ≡ none
      → d'.rows
        ≡ (run_stragglers ns
            (stop public_ok admin_ok closers (react_all es p)).1.server.store).db.rows
      → (open_store path' limit' later d').1 ≡ some s'
      → lookup key (react_all es p).server.store.cache ≡ some e
      → is_durable key e (react_all es p).server.store ≡ true
      → view s' key ≡ reopened limit' later (some (e.value, e.expires_at))
  unfolding stop
  restart_lem path limit now d p since es public_ok admin_ok closers ns path' limit' later d' s' key
        e k on first traffic done same again at kept =
      let s = (react_all es p).server.store in
      restart_keeps (clock_at_end since es) s ns (ask (flush s).2.db).1 path' limit' later d' s' key
        e
        (react_all-IsUnspoiled since es p traffic
          (open_store-IsUnspoiled since path limit now d p.server.store k on first))
        done (rows-ask (flush s).2.db) same again at kept
