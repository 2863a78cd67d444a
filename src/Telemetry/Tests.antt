-- ===== src/Telemetry/Tests.antt =====
-- Values for internal/telemetry/telemetry.go, and its theorem at them.
use kvp.Prelude.{
  ℕ, ◌+◌, ◌<◌, ◌≡◌, ◌⊎◌, refl, Bool, true, false, Option, none, some, List, [], ◌∷◌, String,
}
use kvp.Assoc.{lookup}
use kvp.Telemetry.Health.{new_health, Probe, readiness, write_json, ping_ok, set_draining}
use kvp.Telemetry.Ready.{Event, probed, drained, run, PingedAt, last_drain, readiness_lem}
use kvp.Telemetry.Setup.{
  Sdk, Built, built, new_telemetry, parse_endpoint, parse_level, shutdown, meter_provider,
  trace_provider,
}
use kvp.Telemetry.Instruments.{new_metrics, attrs}

-- A database that answers its next pings as the list says.
abbrev next_ping : List Bool → Bool × List Bool
next_ping [] = (true, [])
next_ping (b ∷ bs) = (b, bs)

abbrev probe_at : ℕ → Probe
probe_at t = record { method = "GET"; path = "/readyz"; query = []; since_at = t; marked_at = t }

-- A good ping, then a failing one that is not asked for within the second.
abbrev events : List Event
events = drained true ∷ drained false ∷ probed (probe_at 5) ∷ []

ready_again :
    (readiness next_ping
      (probe_at 7)
      (run next_ping events (new_health, true ∷ false ∷ [])).0
      (run next_ping events (new_health, true ∷ false ∷ [])).1).0.status
    ≡ 200
unfolding readiness ping_ok new_health write_json set_draining lookup
ready_again = refl

readiness_lem_example :
    (last_drain false events ≡ false)
    × (((next_ping (run next_ping events (new_health, true ∷ false ∷ [])).1).0 ≡ true)
        ⊎ ((t : ℕ) × PingedAt next_ping events (new_health, true ∷ false ∷ []) t
            × (7 < t + 1000000000)))
readiness_lem_example = readiness_lem next_ping events (true ∷ false ∷ []) (probe_at 7) ready_again

-- Without an endpoint no exporter is asked for, so that none can fail.
abbrev offline : Sdk
offline = record {
  resource = λ _. true;
  prometheus = true;
  metric_exporter = λ _ _. false;
  trace_exporter = λ _ _. false;
  meter = λ _ _. true;
  parse_url = λ _. none;
}

abbrev service_of : Built → Option String
service_of (built t) = some t.service
service_of other = none

offline_example :
    service_of
      (new_telemetry offline (record { service_name = ""; log_level = "warn"; otlp_endpoint = "" }))
    ≡ some "kvp"
unfolding new_telemetry parse_level meter_provider trace_provider parse_endpoint new_metrics
offline_example = refl

attrs_example : attrs ("kind" ∷ "size" ∷ "odd" ∷ []) ≡ ("kind", "size") ∷ []
unfolding attrs
attrs_example = refl

-- The first error counts, and an unset function is passed over.
shutdown_example :
    shutdown (record {
      metric_shutdown = none;
      trace_shutdown = some (some "traces");
      meter_shutdown = some (some "meters");
    })
    ≡ some "traces"
unfolding shutdown
shutdown_example = refl
