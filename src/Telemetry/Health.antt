-- ===== src/Telemetry/Health.antt =====
-- internal/telemetry/telemetry.go: `Health`, with the handlers of /healthz and /readyz. The ping is a
-- parameter, as in `NewHealth`: it answers whether the database can be reached and changes `S`.
use text.Mathlib.Text.{◌==◌ as same_text}
use kvp.Prelude.{
  ℕ, ◌+◌, String, Bool, true, false, not, Option, none, some, [], ◌∷◌, ltb, if◌then◌else◌,
}
use kvp.Assoc.{Assoc, lookup}

-- `last` is none for the zero time, which lies further back than `cache_ttl`.
pub record Health : Type 0 where
  pub draining : Bool
  pub last : Option ℕ
  pub last_ok : Bool
  pub cache_ttl : ℕ

-- NewHealth; a second is 10^9 nanoseconds.
unfoldable pub new_health : Health
new_health = record { draining = false; last = none; last_ok = false; cache_ttl = 1000000000 }

-- SetDraining
unfoldable pub set_draining : Bool → Health → Health
set_draining v h = record h { draining = v }

-- A request to the admin port, with the readings of the clock that `pingOK` takes.
pub record Probe : Type 0 where
  pub method : String
  pub path : String
  pub query : Assoc String
  pub since_at : ℕ
  pub marked_at : ℕ

-- The status and the JSON object that `writeJSON` sends, with its content type.
pub record Reply : Type 0 where
  pub status : ℕ
  pub content_type : String
  pub fields : Assoc String

unfoldable pub write_json : ℕ → Assoc String → Reply
write_json status fields = record {
  status = status;
  content_type = "application/json";
  fields = fields;
}

-- LivenessHandler
unfoldable pub liveness : Probe → Reply
liveness r =
    if not (same_text r.method "GET")
    then write_json 405 (("status", "error") ∷ [])
    else write_json 200 (("status", "ok") ∷ [])

abbrev pub is_one : Option String → Bool
is_one none = false
is_one (some v) = same_text v "1"

-- `time.Since(h.last) < h.cacheTTL`
abbrev pub is_recent : ℕ → ℕ → Option ℕ → Bool
is_recent ttl now none = false
is_recent ttl now (some t) = ltb now (t + ttl)

module _ {S : Type 0} (ping : S → Bool × S) where
  abbrev pub store_ping : ℕ → Health → Bool × S → Bool × Health × S
  store_ping now h (ok, s) = (ok, record h { last = some now; last_ok = ok }, s)

  -- pingOK: a full ping neither reads nor writes what is remembered.
  unfoldable pub ping_ok : Bool → Probe → Health → S → Bool × Health × S
  ping_ok true r h s = let (ok, s') = ping s in (ok, h, s')
  ping_ok false r h s =
      if is_recent h.cache_ttl r.since_at h.last
      then (h.last_ok, h, s)
      else store_ping r.marked_at h (ping s)

  abbrev pub answer_ready : Bool × Health × S → Reply × Health × S
  answer_ready (true, h, s) = (write_json 200 (("status", "ready") ∷ []), h, s)
  answer_ready (false, h, s) =
      (write_json 503 (("status", "not ready") ∷ ("reason", "db") ∷ []), h, s)

  -- ReadinessHandler
  unfoldable pub readiness : Probe → Health → S → Reply × Health × S
  readiness r h s =
      if not (same_text r.method "GET")
      then (write_json 405 (("status", "error") ∷ []), h, s)
      else if h.draining
      then (write_json 503 (("status", "not ready") ∷ ("reason", "draining") ∷ []), h, s)
      else answer_ready (ping_ok (is_one (lookup "full" r.query)) r h s)

  abbrev pub found : Reply × Health × S → Option Reply × Health × S
  found (reply, h, s) = (some reply, h, s)

  -- The mux of Handler; none for another path, which net/http answers.
  unfoldable pub handle_probe : Probe → Health → S → Option Reply × Health × S
  handle_probe r h s =
      if same_text r.path "/healthz"
      then (some (liveness r), h, s)
      else if same_text r.path "/readyz"
      then found (readiness r h s)
      else (none, h, s)
