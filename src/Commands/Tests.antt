-- ===== src/Commands/Tests.antt =====
-- A process of cmd/kvp/main.go, and its theorems at it.
use text.Mathlib.Text.{◌==◌ as same_text}
use kvp.Prelude.{
  ℕ, if◌then◌else◌, chunks, String, ◌≡◌, refl, true, false, none, some, [], ◌∷◌, List,
}
use kvp.Prelude.Int.{pos_part, pos, ◌+ℤ◌, ◌-ℤ◌}
use kvp.Examples.{clock, plain_parsers, point, unary, disk, fresh, fresh-IsValid}
use kvp.Assoc.{lookup, insert, erase}
use kvp.Store.Mode.{put_sync, parse_put_mode, lower_is, to_lower}
use kvp.Store.Sql.{delete_where, Db, ask, exec, upsert, mem}
use kvp.Store.State.{
  entry_size, drop_expired_entry, cache_drop, Entry, cache_put, mark_dirty, take_dirty,
  clear_volatile, snapshot,
}
use kvp.Store.Write.{put_with_mode, flush, flush_chunks, flush_tx, upsert_items, settle}
use kvp.Store.Read.{
  get, get_cached, run_straggler, run_stragglers, open_store, migrate_loop, load_cache, load_loop,
}
use kvp.Store.View.{view}
use kvp.Store.Durable.Restart.{is_durable}
use kvp.Store.Durable.Load.{reopened}
use kvp.Server.Http.{
  Request, header, Options, Net, new_server, read_body, is_ui_path, route_for_path,
}
use kvp.Server.Handlers.{
  route, serve_post, serve_get, write_error, serve_key_direct, resolve_mode, answer_put,
}
use kvp.Server.Middleware.{
  peer_trusted, Readings, handle, request_id, access_log, rate_limit, auth, refuses, client_ip,
  security_headers,
}
use kvp.Server.RateLimit.{allow, refill, gained, new_rate_limiter}
use kvp.Store.Expire.{usage}
use kvp.Cleanup.{run_flush, maybe_evict, enter, run_evict}
use kvp.Config.Configured.{configured}
use kvp.Config.{
  validate_listen_addr, split_host_port, split_last_colon, all_digits, validate_commit_mode,
  parse_int, read_digits, memory_cache_bytes,
}
use kvp.Config.Values.{validate_log_level, parse_positive_duration}
use kvp.Config.Parse.{defaults, assign_all, assign}
use kvp.Config.Settings.{parse, finish}
use kvp.Telemetry.Instruments.{new_metrics, Instrument, Metrics, gauge}
use kvp.Telemetry.Setup.{
  Closers, Sdk, new_telemetry, parse_level, meter_provider, trace_provider, parse_endpoint,
}
use kvp.Telemetry.Health.{new_health}
use kvp.Commands.{
  Process, stop, Boot, running, BootTimes, boot, eviction_limit, options_of, rate_of,
}
use kvp.Commands.Started.{asked_limiter, boot_lem}
use kvp.Commands.Events.{Event, requested, flush_tick, after_write, straggled, react, react_all}
use kvp.Store.Valid.{IsValid}
use kvp.Commands.Valid.{react_all-IsValid}
use kvp.Commands.Restart.{restart_lem, all_traffic}

instance abbrev plain_net : Net
plain_net = record {
  split_host_port = λ v. some v;
  parse_addr = λ v. none;
  contains = λ p ip. false;
}

abbrev instrument : Instrument
instrument = record { kind = gauge; name = "kvp_db_rows" }

abbrev instruments : Metrics
instruments = record {
  req_count = instrument;
  req_duration = instrument;
  req_in_flight = instrument;
  db_query = instrument;
  db_size = instrument;
  db_limit = instrument;
  db_rows = instrument;
  keys_stored = instrument;
  keys_expired = instrument;
  dirty_gauge = instrument;
  flush_runs = instrument;
  cleanup_runs = instrument;
  cleanup_counter = instrument;
  http_errors = instrument;
}

abbrev options : Options
options = record {
  max_body_bytes = pos 0;
  max_key_bytes = pos 0;
  ttl = pos 7;
  api_key = "";
  commit_mode = "";
  rate_num = pos 10;
  rate_den = 1;
  rate_burst = pos 20;
  trusted_proxies = [];
  ui = [];
  has_after_write = true;
}

abbrev process : Process
process = record {
  cfg = defaults (λ _. "");
  metrics = instruments;
  server = new_server (fresh (pos 1000)) options;
  evictor = record { throttle = 10; running = false; last_run = none };
  health = new_health;
  folder = record { files = []; outcomes = [] };
  samples = [];
}

abbrev post : Request
post = record {
  method = "POST";
  path = "/a";
  headers = ("X-Commit-Mode", "async") ∷ [];
  remote_addr = "10.0.0.1";
  body = record { sent = 1 ∷ 2 ∷ []; breaks = false };
}

abbrev at : ℕ → Readings
at t = record { prune_at = t; allow_at = t; store_at = t; new_id = "id" }

-- The read at 11 finds an expired entry, and its background deletion runs after the second write.
abbrev events : List Event
events =
    flush_tick
    ∷ requested (at 3) post
    ∷ after_write 4 4
    ∷ requested (at 11) (record post { method = "GET" })
    ∷ requested (at 12) post
    ∷ straggled 0
    ∷ []

abbrev entry : Entry
entry = record { value = 1 ∷ 2 ∷ []; expires_at = 19; volatile = true }

opens : (open_store "kvp.db" (pos 1000) 0 disk).1 ≡ some process.server.store
unfolding open_store ask new_server migrate_loop load_cache load_loop
opens = refl

abbrev after_events : Process
after_events = react_all events process

calm : all_traffic 0 events process ≡ true
unfolding react_all react lookup insert handle request_id access_log rate_limit client_ip allow
    refill gained ◌+ℤ◌ ◌-ℤ◌ new_server new_rate_limiter auth refuses route is_ui_path route_for_path
    serve_key_direct serve_post read_body resolve_mode header parse_put_mode lower_is to_lower
    put_with_mode cache_put mark_dirty answer_put security_headers run_flush flush take_dirty get
    get_cached drop_expired_entry cache_drop run_straggler maybe_evict enter run_evict usage
    eviction_limit serve_get delete_where write_error entry_size defaults erase peer_trusted
calm = refl

stored : lookup "a" after_events.server.store.cache ≡ some entry
unfolding react_all react lookup insert handle request_id access_log rate_limit client_ip allow
    refill gained ◌+ℤ◌ ◌-ℤ◌ new_server new_rate_limiter auth refuses route is_ui_path route_for_path
    serve_key_direct serve_post read_body resolve_mode header parse_put_mode lower_is to_lower
    put_with_mode cache_put mark_dirty answer_put security_headers run_flush flush take_dirty get
    get_cached drop_expired_entry cache_drop run_straggler maybe_evict enter run_evict usage
    eviction_limit serve_get delete_where write_error entry_size defaults erase peer_trusted
stored = refl

waits : is_durable "a" entry after_events.server.store ≡ true
unfolding react_all react lookup insert handle request_id access_log rate_limit client_ip allow
    refill gained ◌+ℤ◌ ◌-ℤ◌ new_server new_rate_limiter auth refuses route is_ui_path route_for_path
    serve_key_direct serve_post read_body resolve_mode header parse_put_mode lower_is to_lower
    put_with_mode cache_put mark_dirty answer_put security_headers run_flush flush take_dirty get
    get_cached drop_expired_entry cache_drop run_straggler maybe_evict enter run_evict usage
    eviction_limit serve_get delete_where write_error entry_size defaults erase peer_trusted mem
waits = refl

flushes : (flush after_events.server.store).1 ≡ none
unfolding react_all react lookup insert handle request_id access_log rate_limit client_ip allow
    refill gained ◌+ℤ◌ ◌-ℤ◌ new_server new_rate_limiter auth refuses route is_ui_path route_for_path
    serve_key_direct serve_post read_body resolve_mode header parse_put_mode lower_is to_lower
    put_with_mode cache_put mark_dirty answer_put security_headers run_flush flush take_dirty get
    get_cached drop_expired_entry cache_drop run_straggler maybe_evict enter run_evict usage
    eviction_limit serve_get delete_where write_error entry_size defaults erase peer_trusted
    flush_chunks flush_tx snapshot chunks ask upsert_items exec
flushes = refl

abbrev no_closers : Closers
no_closers = record { metric_shutdown = none; trace_shutdown = none; meter_shutdown = some none }

abbrev after_stop : Process
after_stop = (stop true true no_closers after_events).1

-- The database's file as the process leaves it.
abbrev left : Db
left = record {
  rows = (record { key = "a"; value = 1 ∷ 2 ∷ []; expires_at = unary 19 }) ∷ [];
  outcomes = [];
  sizes = [];
}

leaves : left.rows ≡ (run_stragglers (0 ∷ []) after_stop.server.store).db.rows
unfolding react_all react lookup insert handle request_id access_log rate_limit client_ip allow
    refill gained ◌+ℤ◌ ◌-ℤ◌ new_server new_rate_limiter auth refuses route is_ui_path route_for_path
    serve_key_direct serve_post read_body resolve_mode header parse_put_mode lower_is to_lower
    put_with_mode cache_put mark_dirty answer_put security_headers run_flush flush take_dirty get
    get_cached drop_expired_entry cache_drop run_straggler maybe_evict enter run_evict usage
    eviction_limit serve_get delete_where write_error entry_size defaults erase peer_trusted
    flush_chunks flush_tx snapshot chunks ask upsert_items exec upsert settle clear_volatile stop
    run_stragglers
leaves = refl

reopens : (open_store "kvp.db" (pos 0) 5 left).1 ≡ some (record (fresh (pos 0)) { db = left })
unfolding open_store ask migrate_loop
reopens = refl

restart_lem_example :
    view (record (fresh (pos 0)) { db = left }) "a"
    ≡ reopened (pos 0) 5 (some (entry.value, entry.expires_at))
restart_lem_example =
    restart_lem "kvp.db" (pos 1000) 0 disk process 0 events true true no_closers (0 ∷ []) "kvp.db"
      (pos 0) 5 left (record (fresh (pos 0)) { db = left }) "a" entry tt refl opens calm flushes
      leaves reopens stored waits

react_all-IsValid_example : IsValid (react_all events process).server.store
react_all-IsValid_example =
    react_all-IsValid events process (unfold new_server in fresh-IsValid (pos 1000))

-- An environment that sets the lifetime and asks for the commit mode memory.
abbrev environment : String → String
environment name =
    if same_text name "KVP_TTL"
    then "60"
    else if same_text name "KVP_COMMIT_MODE"
    then "memory"
    else ""

abbrev sdk : Sdk
sdk = record {
  resource = λ _. true;
  prometheus = true;
  metric_exporter = λ _ _. true;
  trace_exporter = λ _ _. true;
  meter = λ _ _. true;
  parse_url = λ _. none;
}

abbrev times : BootTimes
times = record { opened_at = 1; checked_at = 2; marked_at = 2 }

abbrev process_or : Boot → Process
process_or (running p) = p
process_or other = process

abbrev booted : Boot
booted = boot sdk environment [] process.folder times disk

boots : booted ≡ running (process_or booted)
unfolding boot parse assign_all assign finish defaults validate_listen_addr split_host_port
    split_last_colon all_digits validate_commit_mode to_lower validate_log_level parse_int
    read_digits parse_positive_duration memory_cache_bytes new_telemetry parse_level meter_provider
    trace_provider parse_endpoint new_metrics open_store ask migrate_loop load_cache load_loop
    eviction_limit options_of rate_of maybe_evict enter run_evict usage
boots = refl

boot_lem_example :
    ((process_or booted).cfg ≡ configured environment)
    × ((process_or booted).server.default_mode ≡ put_sync)
    × ((process_or booted).server.api_key ≡ (configured environment).api_key)
    × ((process_or booted).server.max_body_bytes ≡ pos_part (configured environment).max_body_bytes)
    × ((process_or booted).server.max_key_bytes ≡ pos_part (configured environment).max_key_bytes)
    × ((process_or booted).server.ttl ≡ pos_part (configured environment).ttl)
    × ((process_or booted).server.trusted_proxies ≡ (configured environment).trusted_proxies)
    × (asked_limiter
          (configured environment).rate_limit_rps
          (configured environment).rate_limit_burst
        ≡ some (process_or booted).server.rl)
boot_lem_example = boot_lem sdk environment [] process.folder times disk (process_or booted) boots
