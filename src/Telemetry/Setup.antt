-- ===== src/Telemetry/Setup.antt =====
-- internal/telemetry/telemetry.go: `New`, the log level and the endpoint, and `Shutdown`. Which parts
-- the SDK of OpenTelemetry can build is a parameter.
use text.Mathlib.Text.{◌==◌ as same_text}
use kvp.Prelude.{
  ℕ, String, Bool, true, false, not, ◌||◌, ◌&&◌, Option, none, some, List, [], ◌∷◌, ◌==◌,
  if◌then◌else◌,
}
use kvp.Store.Mode.{codes}
use kvp.Telemetry.Instruments.{Kind, Metrics, new_metrics}

pub data Level : Type 0 where
  debug info warn error : Level

-- parseLevel
unfoldable pub parse_level : String → Option Level
parse_level v =
    if same_text v "" || same_text v "info"
    then some info
    else if same_text v "debug"
    then some debug
    else if same_text v "warn"
    then some warn
    else if same_text v "error"
    then some error
    else none

-- What is called of the SDK, and net/url: the scheme and the host of a text that parses.
pub record Sdk : Type 0 where
  pub resource : String → Bool
  pub prometheus : Bool
  pub metric_exporter : String → Bool → Bool
  pub trace_exporter : String → Bool → Bool
  pub meter : Kind → String → Bool
  pub parse_url : String → Option (String × String)

abbrev pub begins_scheme : List ℕ → Bool
begins_scheme (a ∷ b ∷ c ∷ cs) = a == b':' && b == b'/' && c == b'/'
begins_scheme (a ∷ b ∷ []) = false
begins_scheme (a ∷ []) = false
begins_scheme [] = false

-- `strings.Contains(endpoint, "://")`
unfoldable pub has_scheme : List ℕ → Bool
has_scheme [] = false
has_scheme (c ∷ cs) = let rest = has_scheme cs in begins_scheme (c ∷ cs) || rest

abbrev pub url_host : String → Option (String × String) → String × Bool
url_host endpoint none = (endpoint, false)
url_host endpoint (some (scheme, host)) = (host, same_text scheme "http")

-- The fields of `Config` of this package that `New` reads.
pub record Settings : Type 0 where
  pub service_name : String
  pub log_level : String
  pub otlp_endpoint : String

-- `otlp` is the endpoint to which metrics and traces are sent, if there is one.
pub record Telemetry : Type 0 where
  pub level : Level
  pub service : String
  pub metrics : Metrics
  pub otlp : Option (String × Bool)

-- The step that failed, or what is built.
pub data Built : Type 0 where
  bad_level no_resource no_meter no_tracer no_instruments : Built
  built : Telemetry → Built

module _ (sdk : Sdk) where
  -- parseEndpoint
  unfoldable pub parse_endpoint : String → String × Bool
  parse_endpoint endpoint =
      if same_text endpoint ""
      then ("", false)
      else if not (has_scheme (codes endpoint))
      then (endpoint, true)
      else url_host endpoint (sdk.parse_url endpoint)

  -- newMeterProvider: the exporter is made only where the endpoint has a host.
  unfoldable pub meter_provider : String → Bool
  meter_provider endpoint =
      let (host, insecure) = parse_endpoint endpoint in
      sdk.prometheus && (if same_text host "" then true else sdk.metric_exporter host insecure)

  -- newTraceProvider
  unfoldable pub trace_provider : String → Bool
  trace_provider endpoint =
      let (host, insecure) = parse_endpoint endpoint in
      if same_text host "" then true else sdk.trace_exporter host insecure

  abbrev pub otlp_of : String × Bool → Option (String × Bool)
  otlp_of (host, insecure) = if same_text host "" then none else some (host, insecure)

  abbrev pub with_metrics : Level → String → String → Option Metrics → Built
  with_metrics level service endpoint none = no_instruments
  with_metrics level service endpoint (some metrics) = built (record {
    level = level;
    service = service;
    metrics = metrics;
    otlp = otlp_of (parse_endpoint endpoint);
  })

  abbrev pub with_level : String → String → Option Level → Built
  with_level service endpoint none = bad_level
  with_level service endpoint (some level) =
      if not (sdk.resource service)
      then no_resource
      else if not (meter_provider endpoint)
      then no_meter
      else if not (trace_provider endpoint)
      then no_tracer
      else with_metrics level service endpoint (new_metrics sdk.meter)

  -- New
  unfoldable pub new_telemetry : Settings → Built
  new_telemetry cfg =
      let service = if same_text cfg.service_name "" then "kvp" else cfg.service_name in
      with_level service cfg.otlp_endpoint (parse_level cfg.log_level)

-- The functions that Shutdown calls where they are set, each with the error that it returns.
pub record Closers : Type 0 where
  pub metric_shutdown : Option (Option String)
  pub trace_shutdown : Option (Option String)
  pub meter_shutdown : Option (Option String)

abbrev pub close_next : Option String → Option (Option String) → Option String
close_next first none = first
close_next none (some result) = result
close_next (some e) (some result) = some e

-- Shutdown: all are called, and the first error is returned.
unfoldable pub shutdown : Closers → Option String
shutdown c =
    close_next (close_next (close_next none c.metric_shutdown) c.trace_shutdown) c.meter_shutdown
