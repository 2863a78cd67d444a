-- ===== src/Server/Recorder.antt =====
-- internal/server/middleware.go: `responseRecorder` and `countingBody`, around the connection, and the
-- calls of the metrics that `accessLog` makes. The recorder is shown to be transparent.
use kvp.Prelude.{
  ℕ, ◌+◌, String, true, false, not, ◌≡◌, refl, ap, ◌∙◌, Option, none, some, List, [], ◌∷◌, ◌++◌,
  arith, if◌then◌else◌, ◌==◌, leb, length, take, length-append,
}
use kvp.Prelude.Int.{ℤ, pos, negsuc}
use kvp.Store.Sql.{Bytes}
use kvp.Server.Http.{Request, Outcome, done, panics, route_for_path}

-- What net/http sends: the status of the first WriteHeader, and the body.
pub record Wire : Type 0 where
  pub header : Option ℕ
  pub body : Bytes

abbrev pub wire_header : ℕ → Wire → Wire
wire_header code w = elim w.header [ none ↦ record w { header = some code } | some first ↦ w ]

-- A write sends 200 where no status has been sent, and then as many bytes as the connection takes.
abbrev pub wire_write : Bytes → ℕ → Wire → Wire
wire_write b n w = let w' = wire_header 200 w in record w' { body = w'.body ++ take n b }

-- The status of a response is 200 where the handler sends none.
abbrev pub wire_status : Wire → ℕ
wire_status w = elim w.header [ none ↦ 200 | some code ↦ code ]

pub record Recorder : Type 0 where
  pub status : ℕ
  pub bytes : ℕ
  pub wire : Wire

-- WriteHeader
unfoldable pub write_header : ℕ → Recorder → Recorder
write_header code r =
    if not (r.status == 0) then r else record r { status = code; wire = wire_header code r.wire }

-- Write, where the connection takes `n` bytes.
unfoldable pub write : Bytes → ℕ → Recorder → Recorder
unfolding write_header
write b n r =
    let r' = if r.status == 0 then write_header 200 r else r in
    record r' { bytes = r'.bytes + length (take n b); wire = wire_write b n r'.wire }

-- What the wrapped handler calls.
pub data Call : Type 0 where
  status_call : ℕ → Call
  bytes_call : Bytes → ℕ → Call

abbrev pub recorded : List Call → Recorder → Recorder
recorded [] r = r
recorded (status_call code ∷ calls) r = recorded calls (write_header code r)
recorded (bytes_call b n ∷ calls) r = recorded calls (write b n r)

-- The same calls without the recorder.
abbrev pub unrecorded : List Call → Wire → Wire
unrecorded [] w = w
unrecorded (status_call code ∷ calls) w = unrecorded calls (wire_header code w)
unrecorded (bytes_call b n ∷ calls) w = unrecorded calls (wire_write b n w)

-- The status in the access log.
abbrev pub logged_status : Recorder → ℕ
logged_status r = if r.status == 0 then 200 else r.status

-- The statuses of a handler's answers are not informational ones, after which net/http takes another.
abbrev pub Statuses : List Call → Type 0
Statuses [] = Unit
Statuses (status_call code ∷ calls) = (leb 200 code ≡ true) × Statuses calls
Statuses (bytes_call b n ∷ calls) = Statuses calls

-- The bytes of the request body that have been read.
pub record CountingBody : Type 0 where
  pub n : ℕ

unfoldable pub read : ℕ → CountingBody → CountingBody
read count c = record c { n = c.n + count }

-- A call of the interface `Metrics`; of a status the call gets the digits.
pub data RequestMetric : Type 0 where
  in_flight : String → String → String → ℤ → RequestMetric
  took : String → String → String → ℕ → RequestMetric
  answered : String → String → String → ℕ → RequestMetric
  refused : String → String → ℕ → RequestMetric

abbrev pub error_metric : String → String → ℕ → List RequestMetric
error_metric route path status = if leb 400 status then refused route path status ∷ [] else []

-- The metrics of `accessLog` for a request: the gauge goes down also where the handler panics.
unfoldable pub access_metrics : Request → ℕ → Outcome → List RequestMetric
access_metrics r latency (done w) =
    let route = route_for_path r.path in
    in_flight r.method route r.path (pos 1)
    ∷ took r.method route r.path latency
    ∷ answered r.method route r.path w.status
    ∷ (error_metric route r.path w.status ++ in_flight r.method route r.path (negsuc 0) ∷ [])
access_metrics r latency (panics h) =
    let route = route_for_path r.path in
    in_flight r.method route r.path (pos 1) ∷ in_flight r.method route r.path (negsuc 0) ∷ []

-- Between two calls: the status is zero exactly where none has been sent, and the bytes are counted.
abbrev SentIs : ℕ → Option ℕ → Type 0
SentIs status none = status ≡ 0
SentIs status (some code) = (status ≡ code) × ((code == 0) ≡ false)

abbrev Agrees : Recorder → Type 0
Agrees r = SentIs r.status r.wire.header × (r.bytes ≡ length r.wire.body)

abbrev made : ℕ → ℕ → Option ℕ → Bytes → Recorder
made status bytes header body = record {
  status = status;
  bytes = bytes;
  wire = record { header = header; body = body };
}

write_header-Agrees :
    (code status bytes : ℕ) (header : Option ℕ) (body : Bytes)
    → (code == 0) ≡ false
    → Agrees (made status bytes header body)
    → Agrees (write_header code (made status bytes header body))
      × ((write_header code (made status bytes header body)).wire
          ≡ wire_header code (record { header = header; body = body }))
unfolding write_header
write_header-Agrees code status bytes none body h a = rw a.0 (((refl, h), a.1), refl)
write_header-Agrees code status bytes (some first) body h a =
    let known : (status == 0) ≡ false = ap (λ s. s == 0) a.0.0 ∙ a.0.1 in rw known (a, refl)

write-Agrees :
    (b : Bytes) (n status bytes : ℕ) (header : Option ℕ) (body : Bytes)
    → Agrees (made status bytes header body)
    → Agrees (write b n (made status bytes header body))
      × ((write b n (made status bytes header body)).wire
          ≡ wire_write b n (record { header = header; body = body }))
unfolding write write_header
write-Agrees b n status bytes none body a =
    rw a.0 (((refl, refl), omega (arith, a.1, length-append body (take n b))), refl)
write-Agrees b n status bytes (some first) body a =
    let known : (status == 0) ≡ false = ap (λ s. s == 0) a.0.0 ∙ a.0.1 in
    rw known ((a.0, omega (arith, a.1, length-append body (take n b))), refl)

final_status : (code : ℕ) → leb 200 code ≡ true → (code == 0) ≡ false
final_status code h = ground arith

recorded-Agrees :
    (calls : List Call) (r : Recorder)
    → Statuses calls
    → Agrees r
    → Agrees (recorded calls r) × ((recorded calls r).wire ≡ unrecorded calls r.wire)
recorded-Agrees [] r h a = (a, refl)
recorded-Agrees (status_call code ∷ calls) r h a =
    let one =
      write_header-Agrees code r.status r.bytes r.wire.header r.wire.body (final_status code h.0)
        a in
    let rest = recorded-Agrees calls (write_header code r) h.1 one.0 in
    (rest.0, rest.1 ∙ ap (unrecorded calls) one.1)
recorded-Agrees (bytes_call b n ∷ calls) r h a =
    let one = write-Agrees b n r.status r.bytes r.wire.header r.wire.body a in
    let rest = recorded-Agrees calls (write b n r) h one.0 in
    (rest.0, rest.1 ∙ ap (unrecorded calls) one.1)

status-Agrees :
    (status : ℕ) (header : Option ℕ) (bytes : ℕ) (body : Bytes)
    → SentIs status header
    → logged_status (made status bytes header body)
      ≡ wire_status (record { header = header; body = body })
status-Agrees status none bytes body a = rw a refl
status-Agrees status (some code) bytes body a =
    let known : (status == 0) ≡ false = ap (λ s. s == 0) a.0 ∙ a.1 in rw known a.0

abbrev pub new_recorder : Recorder
new_recorder = record { status = 0; bytes = 0; wire = record { header = none; body = [] } }

-- Whatever a handler calls, with statuses from 200 on and however many bytes the connection takes
-- of each write, the client gets what it would get without the recorder, and the access log's status
-- and number of bytes are those of what the client gets.
pub recorded_lem :
    (calls : List Call)
    → Statuses calls
    → ((recorded calls new_recorder).wire ≡ unrecorded calls (record { header = none; body = [] }))
      × (logged_status (recorded calls new_recorder)
          ≡ wire_status (recorded calls new_recorder).wire)
      × ((recorded calls new_recorder).bytes ≡ length (recorded calls new_recorder).wire.body)
recorded_lem calls h =
    let a = recorded-Agrees calls new_recorder h (refl, refl) in
    let r = recorded calls new_recorder in
    (a.1, status-Agrees r.status r.wire.header r.bytes r.wire.body a.0.0, a.0.1)
