-- ===== src/Gateway/Examples.antt =====
-- Requests to the gateway and to its simulator, and the theorems at them.
use Prim.Native.String
use are_foundation.Base.{
  String, ◌≡◌, ◌≢◌, ◌↔◌, ◌⊎◌, refl, true, false, none, some, [], ◌∷◌, any, ◌==◌, if◌then◌else◌,
}
use are_foundation.Base.Int.{pos, ◌<ℤ◌}
use are_foundation.Base.Dict
use are_foundation.Base.Text.{has_prefix, trim_space, has_suffix, trim_suffix, byte_len}
use are_foundation.Gateway.Model.{
  text, Fields, no_fields, field, at, text_at, plain, UpstreamRequest, UpstreamResponse,
}
use are_foundation.Gateway.Routes.{
  is_foundation_route, requires_idempotency_key, post_route, match_phase1_route,
}
use are_foundation.Gateway.Server.{
  Request, Env, handle, handle_api, handle_authenticated, forward, authenticate,
}
use are_foundation.Gateway.Simulator.{
  PassportRecord, Simulator, World, handle_register_agent, register_new, blank,
}
use are_foundation.Gateway.Decisions.{
  call, scope_allows, check, or_zero, entry_matches, resource_matches,
}
use are_foundation.Gateway.Proxy.{
  Proxy, proxy_call, selecting_upstream, or_503, selecting_upstream-handle,
}
use are_foundation.Gateway.Guards.{IsForwarded, handle-IsForwarded}
use are_foundation.Gateway.Replay.{lacks_nul, type_of, owner_of, register-replay}
use are_foundation.Gateway.Grants.{IsValid, SaysVerified, call-SaysVerified, scope_allows_only}
use are_foundation.Gateway.Tracing.{
  TraceparentParts, TraceEnv, parse_traceparent, parse_parts, split, all_hex, parse_uint8,
  parse_digits, digit, traceparent, start_server_trace,
}
use are_foundation.Gateway.Propagation.{parse-traceparent}
use are_foundation.Base.Text.{trim_suffix, has_suffix}
use are_foundation.Gateway.Proxy.{proxy_request}
use are_foundation.Bff.Memory.{Memory, memory, new_memory}
use are_foundation.Bff.Responses
use are_foundation.Bff.Handler.{Config, serve}
use are_foundation.Bff.Entry.{entered, with_required_headers}
use are_foundation.Bff.Through.{arrived, handle-with_required_headers}

abbrev payload : String → Fields
payload owner = field "agent_type" (text "SYSTEM") (field "owner_id" (text owner) no_fields)

abbrev request : Request
request = record {
  method = "POST";
  path = "/v1/identity/agents";
  raw_query = "";
  request_id = "r1";
  authorization = "Bearer t";
  agent_id = "a";
  idempotency_key = "k";
  content_type = "application/json";
  body = some (some (payload "o"));
}

abbrev sent : String → UpstreamRequest
sent owner = record {
  method = "POST";
  path = "/v1/identity/agents";
  raw_query = "";
  body = some (payload owner);
  agent_id = "a";
  request_id = "r1";
  identity = "ops";
  idempotency_key = "k";
  authorization = "Bearer t";
  content_type = "application/json";
  traceparent = "";
}

abbrev page : UpstreamResponse
page = record { status_code = 200; body = plain "" }

abbrev env : Env
env = record {
  validate = λ token. some "ops";
  deadline_exceeded = false;
  upstream = λ q. none;
  metrics_page = page;
  traceparent = "";
  metrics_allow_anonymous = "";
  dev_unsafe_mode = "";
  metrics_require_auth = "";
}

is_sent : (handle env request).forwarded ≡ some (sent "o")
unfolding handle handle_api handle_authenticated forward authenticate is_foundation_route
    match_phase1_route post_route requires_idempotency_key has_prefix
is_sent = refl

handle-IsForwarded_example : IsForwarded env request (sent "o")
handle-IsForwarded_example = handle-IsForwarded env request (sent "o") is_sent

abbrev fresh : Simulator
fresh = record {
  idempotent_resp = Dict.empty;
  idempotent_body_hash = Dict.empty;
  registered_agents = Dict.empty;
  passports = Dict.empty;
  passports_by_agent = Dict.empty;
}

unused : Dict.get fresh.idempotent_resp (String.◌++◌ "RegisterAgent:" "k") ≡ none
unused = Dict.get-empty _

created : (handle_register_agent (sent "o") fresh).0.status_code ≡ 201
unfolding handle_register_agent register_new Dict.get Dict.empty text_at at trim_space
created = refl

plain_type : (owner : String) → lacks_nul (type_of (payload owner)) ≡ true
unfolding lacks_nul text_at at trim_space
plain_type owner = refl

-- The same key for another owner is a conflict.
register-replay_example :
    let r = handle_register_agent (sent "o") fresh in
    (type_of (payload "o") ≡ type_of (payload "p")
      → owner_of (payload "o") ≡ owner_of (payload "p")
      → handle_register_agent (sent "p") r.1 ≡ r)
    × ((type_of (payload "o") ≢ type_of (payload "p"))
          ⊎ (owner_of (payload "o") ≢ owner_of (payload "p"))
        → ((handle_register_agent (sent "p") r.1).0.status_code ≡ 409)
          × ((handle_register_agent (sent "p") r.1).1 ≡ r.1))
register-replay_example =
    register-replay (sent "o") (sent "p") (payload "o") (payload "p") fresh refl refl refl
      (plain_type "o") (plain_type "p") unused created

abbrev passport : PassportRecord
passport = record {
  passport_id = "p1";
  agent_id = "a";
  passport_type = "STANDARD";
  scope_set = record { scope_id = "s"; action_class = "READ"; resource_pattern = "doc/*" } ∷ [];
  status = "ACTIVE";
  issued_by = "ops";
  expires_at = pos 9;
}

abbrev issued : Simulator
issued = record fresh { passports = Dict.put fresh.passports "p1" passport }

abbrev world : World
world = record {
  now = pos 5;
  int64_of = λ bits. pos bits;
  itoa = λ n. "0";
  rfc3339 = λ t. "";
  deployment_stage = "";
  opa = none;
}

abbrev verifying : Fields
verifying = field "passport_id" (text "p1") (field "agent_id" (text "a") no_fields)

abbrev verify_request : UpstreamRequest
verify_request = record (sent "o") { path = "/v1/passports:verify"; body = some verifying }

call-SaysVerified_example :
    (SaysVerified (call world verify_request issued).0
      ↔ ((blank "p1" ≡ false) × (blank "a" ≡ false) × IsValid world "p1" "a" issued))
    × ((call world verify_request issued).1 ≡ issued)
unfolding text_at at
call-SaysVerified_example = call-SaysVerified world verify_request verifying issued refl refl refl

allows : (scope_allows world "a" "p1" "READ" "doc/1" issued).0 ≡ true
unfolding scope_allows check resource_matches Dict.get Dict.put Dict.empty trim_space has_prefix
    has_suffix trim_suffix
allows = refl

scope_allows_only_example :
    (id : String) × (("p1" == "") ≡ false → id ≡ "p1")
    × (let rec = or_zero (Dict.get issued.passports id) in
        (rec.agent_id ≡ "a")
        × (rec.status ≡ "ACTIVE")
        × (world.now <ℤ rec.expires_at)
        × (any (entry_matches "READ" "doc/1") rec.scope_set ≡ true))
scope_allows_only_example = scope_allows_only world "a" "p1" "READ" "doc/1" issued allows

abbrev proxy : Proxy
proxy = record { base_path = "/bff/"; send = λ r. some page; has_body = λ r. true }

-- A simulator that answers nothing stands behind the proxy.
abbrev live_env : Env
live_env = record env { upstream = selecting_upstream (some proxy) (λ q. none) true "1" }

is_sent_live : (handle live_env request).forwarded ≡ some (sent "o")
unfolding handle handle_api handle_authenticated forward authenticate is_foundation_route
    match_phase1_route post_route requires_idempotency_key has_prefix
is_sent_live = refl

selecting_upstream-handle_example :
    (live_env.upstream (sent "o") ≡ proxy_call proxy (sent "o"))
    × ((handle live_env request).response ≡ or_503 (proxy_call proxy (sent "o")))
selecting_upstream-handle_example =
    selecting_upstream-handle live_env request (sent "o") proxy (λ q. none) true "1" refl
      is_sent_live

-- The REST service alone behind the gateway.
abbrev service : Config Memory
service = record {
  repo = memory;
  policy = none;
  s0 = record {
    codec = record {
      sprint = λ j. "";
      marshal_text = λ j. "";
      marshal = λ fields. some [];
      text_of = λ bytes. "";
      number_of = λ n. 0;
    };
    reg = none;
    pass = none;
  };
}

abbrev service_env : Responses.Env
service_env = record {
  parse_int = λ s. none;
  int64_of = λ n. pos 0;
  itoa = λ n. "";
  clean_path = λ s. s;
  deployment_stage = "";
  s0s1_deployment_stage = "";
}

abbrev root_proxy : Proxy
root_proxy = record proxy { base_path = "/" }

no_base_path : trim_suffix "/" "/" ≡ ""
unfolding trim_suffix has_suffix
no_base_path = refl

handle-with_required_headers_example :
    (answer : Responses.Response × Memory) × (with_required_headers
        (λ (req : Responses.Request). serve service service_env req)
        (arrived (proxy_request root_proxy (sent "o")))
        new_memory
      ≡ entered (some answer))
handle-with_required_headers_example =
    handle-with_required_headers env request (sent "o") root_proxy service service_env new_memory
      is_sent no_base_path refl

abbrev trace_id : String
trace_id = "4bf92f3577b34da6a3ce929d0e0e4736"

abbrev incoming : TraceparentParts
incoming = record { trace_id = trace_id; parent_span_id = "00f067aa0ba902b7"; sampled = true }

abbrev trace_env : TraceEnv
trace_env = record {
  are_otlp_http_url = "";
  strata_otlp_http_url = "";
  otel_traces_endpoint = "";
  otel_endpoint = "";
  otel_service_name = "";
  new_trace_id = trace_id;
  new_span_id = "b7ad6b7169203331";
  samples = λ id. true;
}

abbrev sent_header : String
sent_header = "00-4bf92f3577b34da6a3ce929d0e0e4736-00f067aa0ba902b7-01"

reads_header : parse_traceparent sent_header ≡ some incoming
unfolding parse_traceparent parse_parts split all_hex parse_uint8 parse_digits digit trim_space
    byte_len
reads_header = refl

span_hex : all_hex "b7ad6b7169203331" ≡ true
unfolding all_hex
span_hex = refl

span_long : byte_len "b7ad6b7169203331" ≡ 16
unfolding byte_len
span_long = refl

parse-traceparent_example :
    parse_traceparent
      (traceparent (start_server_trace trace_env "/v1/passports" sent_header "gw" "s"))
    ≡ some (record {
      trace_id = trace_id;
      parent_span_id = if true then "b7ad6b7169203331" else "00f067aa0ba902b7";
      sampled = true;
    })
parse-traceparent_example =
    parse-traceparent trace_env "/v1/passports" sent_header "gw" "s" incoming refl reads_header
      span_hex span_long
