-- ===== src/Telemetry/Instruments.antt =====
-- internal/telemetry/telemetry.go: `Metrics`, the instruments and what each method of the metrics
-- interfaces records. The meter is OpenTelemetry's: which instruments it makes is a parameter.
use kvp.Prelude.{ℕ, String, Bool, Option, none, some, List, [], ◌∷◌, if◌then◌else◌, ◌>>=◌}
use kvp.Prelude.Int.{ℤ, pos}
use kvp.Cleanup.{Metric, cleanup_run, cleanup_deleted, flush_run, dirty_entries}

pub data Kind : Type 0 where
  counter up_down_counter gauge histogram : Kind

pub record Instrument : Type 0 where
  pub kind : Kind
  pub name : String

pub record Metrics : Type 0 where
  pub req_count : Instrument
  pub req_duration : Instrument
  pub req_in_flight : Instrument
  pub db_query : Instrument
  pub db_size : Instrument
  pub db_limit : Instrument
  pub db_rows : Instrument
  pub keys_stored : Instrument
  pub keys_expired : Instrument
  pub dirty_gauge : Instrument
  pub flush_runs : Instrument
  pub cleanup_runs : Instrument
  pub cleanup_counter : Instrument
  pub http_errors : Instrument

-- One call of the meter, which may fail.
abbrev pub make : (Kind → String → Bool) → Kind → String → Option Instrument
make meter kind name = if meter kind name then some (record { kind = kind; name = name }) else none

-- newMetrics: the first instrument that cannot be made ends it.
unfoldable pub new_metrics : (Kind → String → Bool) → Option Metrics
new_metrics meter = do
  req_count ← make meter counter "kvp_http_requests_total"
  req_duration ← make meter histogram "kvp_http_request_duration_seconds"
  req_in_flight ← make meter up_down_counter "kvp_http_request_in_flight"
  db_query ← make meter histogram "kvp_db_query_duration_seconds"
  db_size ← make meter gauge "kvp_db_size_bytes"
  db_limit ← make meter gauge "kvp_db_size_limit_bytes"
  db_rows ← make meter gauge "kvp_db_rows"
  keys_stored ← make meter counter "kvp_keys_stored_total"
  keys_expired ← make meter counter "kvp_keys_expired_total"
  dirty_gauge ← make meter gauge "kvp_dirty_entries"
  flush_runs ← make meter counter "kvp_flush_runs_total"
  cleanup_runs ← make meter counter "kvp_cleanup_runs_total"
  cleanup_counter ← make meter counter "kvp_cleanup_deleted_keys_total"
  http_errors ← make meter counter "kvp_http_errors_total"
  some (record {
    req_count = req_count;
    req_duration = req_duration;
    req_in_flight = req_in_flight;
    db_query = db_query;
    db_size = db_size;
    db_limit = db_limit;
    db_rows = db_rows;
    keys_stored = keys_stored;
    keys_expired = keys_expired;
    dirty_gauge = dirty_gauge;
    flush_runs = flush_runs;
    cleanup_runs = cleanup_runs;
    cleanup_counter = cleanup_counter;
    http_errors = http_errors;
  })

-- The pairs of `attrs`: an odd argument at the end is left out.
unfoldable pub attrs : List String → List (String × String)
attrs [] = []
attrs (k ∷ []) = []
attrs (k ∷ v ∷ rest) = (k, v) ∷ attrs rest

-- What a measurement adds or records. Durations are nanoseconds, which `d.Seconds()` divides.
pub data Amount : Type 0 where
  whole : ℤ → Amount
  nanoseconds : ℕ → Amount

-- A call of an instrument.
pub record Sample : Type 0 where
  pub instrument : Instrument
  pub amount : Amount
  pub labels : List (String × String)

abbrev pub sample : Instrument → Amount → List String → Sample
sample i a pairs = record { instrument = i; amount = a; labels = attrs pairs }

-- The methods of `Metrics`.
abbrev pub request : Metrics → String → String → String → String → Sample
request m method route path status =
    sample m.req_count (whole (pos 1))
      ("method" ∷ method ∷ "route" ∷ route ∷ "path" ∷ path ∷ "status" ∷ status ∷ [])

abbrev pub request_duration : Metrics → String → String → String → ℕ → Sample
request_duration m method route path d =
    sample m.req_duration (nanoseconds d) ("method" ∷ method ∷ "route" ∷ route ∷ "path" ∷ path ∷ [])

abbrev pub request_in_flight : Metrics → String → String → String → ℤ → Sample
request_in_flight m method route path delta =
    sample m.req_in_flight (whole delta) ("method" ∷ method ∷ "route" ∷ route ∷ "path" ∷ path ∷ [])

abbrev pub query_time : Metrics → String → ℕ → Sample
query_time m operation d = sample m.db_query (nanoseconds d) ("operation" ∷ operation ∷ [])

abbrev pub key_stored : Metrics → String → Sample
key_stored m mode = sample m.keys_stored (whole (pos 1)) ("mode" ∷ mode ∷ [])

abbrev pub key_expired : Metrics → Sample
key_expired m = sample m.keys_expired (whole (pos 1)) []

abbrev pub http_error : Metrics → String → String → String → Sample
http_error m route path status =
    sample m.http_errors (whole (pos 1)) ("route" ∷ route ∷ "path" ∷ path ∷ "status" ∷ status ∷ [])

abbrev pub set_db_size : Metrics → ℤ → Sample
set_db_size m bytes = sample m.db_size (whole bytes) []

abbrev pub set_db_rows : Metrics → ℕ → Sample
set_db_rows m n = sample m.db_rows (whole (pos n)) []

abbrev pub set_db_limit : Metrics → ℤ → Sample
set_db_limit m bytes = sample m.db_limit (whole bytes) []

-- The calls of the jobs: CleanupRun, CleanupDeleted, FlushRun, SetDirtyEntries.
unfoldable pub job_sample : Metrics → Metric → Sample
job_sample m (cleanup_run kind result) =
    sample m.cleanup_runs (whole (pos 1)) ("kind" ∷ kind ∷ "result" ∷ result ∷ [])
job_sample m (cleanup_deleted kind n) =
    sample m.cleanup_counter (whole (pos n)) ("kind" ∷ kind ∷ [])
job_sample m (flush_run result) = sample m.flush_runs (whole (pos 1)) ("result" ∷ result ∷ [])
job_sample m (dirty_entries n) = sample m.dirty_gauge (whole (pos n)) []
