-- ===== src/Gateway/Tracing.antt =====
-- tracing.go: the trace context of a request. The export of spans is left out.
use Prim.Native.String
use Prim.Native.Char.{Char, code}
use are_foundation.Base.{
  ℕ, ◌+◌, ◌*◌, ◌-◌, String, Bool, true, false, not, ◌&&◌, ◌||◌, Option, none, some, List, [], ◌∷◌,
  ◌==◌, if◌then◌else◌, eqb, leb, ltb, ◌%◌,
}
use are_foundation.Base.Text.{trim_slashes, trim_space, byte_len, has_suffix}

abbrev push : Char → List String → List String
push c [] = String.◌∷◌ c String.[] ∷ []
push c (w ∷ ws) = String.◌∷◌ c w ∷ ws

-- `strings.Split` at a separator of one character, which is given by its code
unfoldable pub split : ℕ → String → List String
split sep String.[] = String.[] ∷ []
split sep (String.◌∷◌ c s) =
    let rest = split sep s in if eqb (code c) sep then String.[] ∷ rest else push c rest

-- The value of a hexadecimal digit.
unfoldable pub digit : ℕ → Option ℕ
digit c =
    if leb b'0' c && leb c b'9'
    then some (c - b'0')
    else if leb b'a' c && leb c b'f'
    then some (c - b'a' + 10)
    else if leb b'A' c && leb c b'F'
    then some (c - b'A' + 10)
    else none

abbrev pub is_digit : ℕ → Bool
is_digit c = (leb b'0' c && leb c b'9') || (leb b'a' c && leb c b'f') || (leb b'A' c && leb c b'F')

-- Whether `hex.DecodeString` takes a text of an even length.
unfoldable pub all_hex : String → Bool
all_hex String.[] = true
all_hex (String.◌∷◌ c s) = is_digit (code c) && all_hex s

abbrev next_digit : Option ℕ → Option ℕ → Option ℕ
next_digit (some n) (some d) = if ltb 255 (n * 16 + d) then none else some (n * 16 + d)
next_digit _ _ = none

unfoldable pub parse_digits : Option ℕ → String → Option ℕ
unfolding digit
parse_digits n String.[] = n
parse_digits n (String.◌∷◌ c s) = parse_digits (next_digit n (digit (code c))) s

-- `strconv.ParseUint(s, 16, 8)`
unfoldable pub parse_uint8 : String → Option ℕ
unfolding parse_digits
parse_uint8 String.[] = none
parse_uint8 (String.◌∷◌ c s) = parse_digits (some 0) (String.◌∷◌ c s)

-- traceparentParts
pub record TraceparentParts : Type 0 where
  pub trace_id : String
  pub parent_span_id : String
  pub sampled : Bool

abbrev pub with_flags : String → String → Option ℕ → Option TraceparentParts
with_flags trace_id parent_span_id none = none
with_flags trace_id parent_span_id (some flags) =
    some
      (record { trace_id = trace_id; parent_span_id = parent_span_id; sampled = eqb (flags % 2) 1 })

-- What `parseTraceparent` makes of the parts of a header.
unfoldable pub parse_parts : List String → Option TraceparentParts
unfolding all_hex parse_uint8
parse_parts (version ∷ trace_id ∷ parent_span_id ∷ flags ∷ []) =
    if version == "00"
      && eqb (byte_len trace_id) 32
      && eqb (byte_len parent_span_id) 16
      && all_hex trace_id
      && all_hex parent_span_id
    then with_flags trace_id parent_span_id (parse_uint8 flags)
    else none
parse_parts _ = none

-- parseTraceparent
unfoldable pub parse_traceparent : String → Option TraceparentParts
unfolding split parse_parts
parse_traceparent value = parse_parts (split b'-' (trim_space value))

-- serverTrace
pub record ServerTrace : Type 0 where
  pub endpoint : String
  pub trace_id : String
  pub span_id : String
  pub parent_span_id : String
  pub sampled : Bool
  pub service_name : String
  pub scope_name : String

-- The environment variables, what randomHex draws for a trace and for a span, and whether
-- shouldSampleTrace takes a new trace.
pub record TraceEnv : Type 0 where
  pub are_otlp_http_url : String
  pub strata_otlp_http_url : String
  pub otel_traces_endpoint : String
  pub otel_endpoint : String
  pub otel_service_name : String
  pub new_trace_id : String
  pub new_span_id : String
  pub samples : String → Bool

-- envDefault, of the value of a variable
unfoldable pub env_default : String → String → String
env_default value fallback = let v = trim_space value in if v == "" then fallback else v

-- otlpEndpoint
unfoldable pub otlp_endpoint : TraceEnv → String
unfolding env_default trim_slashes
otlp_endpoint env =
    let raw = env_default env.are_otlp_http_url (
      env_default env.strata_otlp_http_url
        (env_default env.otel_traces_endpoint (trim_space env.otel_endpoint))) in
    if raw == ""
    then ""
    else if has_suffix raw "/v1/traces"
    then raw
    else String.◌++◌ (trim_slashes raw) "/v1/traces"

-- The trace that a request starts or goes on with.
unfoldable pub trace_from : TraceEnv → String → String → TraceparentParts → Option ServerTrace
unfolding env_default otlp_endpoint
trace_from env service_name scope_name parts =
    if parts.trace_id == ""
    then none
    else some (record {
      endpoint = otlp_endpoint env;
      trace_id = parts.trace_id;
      span_id = env.new_span_id;
      parent_span_id = parts.parent_span_id;
      sampled = parts.sampled;
      service_name = env_default env.otel_service_name service_name;
      scope_name = scope_name;
    })

-- startServerTrace, of a path and a header
unfoldable pub start_server_trace :
    TraceEnv → String → String → String → String → Option ServerTrace
unfolding parse_traceparent trace_from otlp_endpoint
start_server_trace env path traceparent service_name scope_name =
    if path == "/metrics" then none else (elim (parse_traceparent traceparent) [
      | some parts ↦ trace_from env service_name scope_name parts
      | none ↦
          if otlp_endpoint env == ""
          then none
          else trace_from env service_name scope_name (record {
            trace_id = env.new_trace_id;
            parent_span_id = "";
            sampled = env.samples env.new_trace_id;
          })
    ])

unfoldable pub header : String → String → String → String
header trace_id span_id flags =
    String.◌++◌ "00-"
      (String.◌++◌ trace_id (String.◌++◌ "-" (String.◌++◌ span_id (String.◌++◌ "-" flags))))

-- serverTrace.traceparent
unfoldable pub traceparent : Option ServerTrace → String
unfolding header
traceparent none = ""
traceparent (some t) =
    let parent = if t.parent_span_id == "" then t.span_id else t.parent_span_id in
    let span_id = if t.sampled then t.span_id else parent in
    if span_id == "" then "" else header t.trace_id span_id (if t.sampled then "01" else "00")

-- serverTrace.shouldRecord
unfoldable pub should_record : Option ServerTrace → Bool
should_record none = false
should_record (some t) = t.sampled && not (t.endpoint == "")

-- serverTrace.recordedTraceparent
unfoldable pub recorded_traceparent : Option ServerTrace → String
unfolding header
recorded_traceparent none = ""
recorded_traceparent (some t) =
    if t.sampled && not (t.endpoint == "") then header t.trace_id t.span_id "01" else ""
