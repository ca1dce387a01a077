-- ===== src/Gateway/Proxy.antt =====
-- s0s1_http_proxy.go and upstream_mode.go: the live upstream, the choice between it and the
-- simulator, and the modes. An environment variable is given as its text.
use Prim.Native.String
use are_foundation.Base.{
  String, Bool, true, ◌≡◌, ap, ◌∙◌, ◌&&◌, ◌||◌, not, Option, none, some, ◌==◌, if◌then◌else◌, arith,
}
use are_foundation.Base.Text.{has_prefix, trim_space, trim_suffix}
use are_foundation.Base.Letters.{to_lower}
use are_foundation.Gateway.Model.{
  Fields, plain, encoded, field, no_fields, object, text, UpstreamRequest, UpstreamResponse,
}
use are_foundation.Gateway.Routes.{is_foundation_route}
use are_foundation.Gateway.Server.{Request, Env, Outcome, handle, forward}
use are_foundation.Gateway.Guards.{handle-IsForwarded, handle-forward}

pub data UpstreamMode : Type 0 where
  static mixed live : UpstreamMode

-- LoadUpstreamMode, of ARE_GW_UPSTREAM_MODE; `none` is an error
unfoldable pub load_upstream_mode : String → Option UpstreamMode
load_upstream_mode variable =
    let v = trim_space (to_lower variable) in
    if v == "" || v == "static"
    then some static
    else if v == "mixed"
    then some mixed
    else if v == "live"
    then some live
    else none

-- ValidateUpstreamModeRequirements, of ARE_GW_S0S1_HTTP_PROXY_BASE; `false` is an error
unfoldable pub validate_mode : UpstreamMode → String → Bool
validate_mode live base = not (trim_space base == "")
validate_mode _ base = true

-- envLiveNoStaticPhase1, of ARE_GW_LIVE_NO_STATIC_PHASE1
unfoldable pub live_no_static : String → Bool
live_no_static variable =
    let v = trim_space (to_lower variable) in v == "1" || v == "true" || v == "yes" || v == "on"

-- The HTTP request that the proxy sends; "" is a header that is not set.
pub record ProxyRequest : Type 0 where
  pub method : String
  pub path : String
  pub raw_query : String
  pub body : Option Fields
  pub authorization : String
  pub request_id : String
  pub agent_id : String
  pub idempotency_key : String
  pub traceparent : String
  pub content_type : String

-- RESTProxyUpstream: the path of its base URL, and its client, which answers a request or fails.
-- `has_body` tells whether a request's body has any bytes.
pub record Proxy : Type 0 where
  pub base_path : String
  pub send : ProxyRequest → Option UpstreamResponse
  pub has_body : UpstreamRequest → Bool

unfoldable pub content_type_of : Proxy → UpstreamRequest → String
content_type_of p req =
    let ct = trim_space req.content_type in
    if not (ct == "") then ct else if p.has_body req then "application/json" else ""

unfoldable pub proxy_request : Proxy → UpstreamRequest → ProxyRequest
unfolding content_type_of
proxy_request p req = record {
  method = req.method;
  path = String.◌++◌ (trim_suffix p.base_path "/") req.path;
  raw_query = req.raw_query;
  body = req.body;
  authorization = req.authorization;
  request_id = req.request_id;
  agent_id = req.agent_id;
  idempotency_key = req.idempotency_key;
  traceparent = req.traceparent;
  content_type = content_type_of p req;
}

-- RESTProxyUpstream.Call
unfoldable pub proxy_call : Proxy → UpstreamRequest → Option UpstreamResponse
unfolding proxy_request
proxy_call p req = if has_prefix req.path "/" then p.send (proxy_request p req) else none

-- The two fixed answers; their JSON object has these two fields.
abbrev unavailable : String → Option UpstreamResponse
unavailable message = some (record {
  status_code = 503;
  body = encoded (
      field "error"
        (object
          (field "code" (text "UPSTREAM_UNAVAILABLE") (field "message" (text message) no_fields)))
        no_fields);
})

-- s0s1SelectingUpstream.Call, with its flags `denyUnknownPhase1` and `rejectPhase1Static`
unfoldable pub select_call :
    Bool
    → Bool
    → (UpstreamRequest → Option UpstreamResponse)
    → (UpstreamRequest → Option UpstreamResponse)
    → UpstreamRequest
    → Option UpstreamResponse
select_call deny_unknown reject_static proxy fallback req =
    if is_foundation_route req.method req.path
    then proxy req
    else if deny_unknown
    then unavailable
        "unknown REST path under live upstream mode; not part of the ARE Foundation S0/S1 contract"
    else if reject_static
    then unavailable
        "foundation route is not forwarded via ARE_GW_S0S1_HTTP_PROXY_BASE; StaticUpstream disabled"
    else fallback req

-- NewS0S1SelectingUpstream, where a fallback is given; `none` is a nil proxy
unfoldable pub selecting_upstream :
    Option Proxy
    → (UpstreamRequest → Option UpstreamResponse)
    → Bool
    → String
    → UpstreamRequest
    → Option UpstreamResponse
unfolding select_call live_no_static proxy_call
selecting_upstream none fallback deny_unknown variable = fallback
selecting_upstream (some p) fallback deny_unknown variable =
    select_call deny_unknown (deny_unknown && live_no_static variable) (proxy_call p) fallback

selects_proxy :
    (p : Proxy) (fallback : UpstreamRequest → Option UpstreamResponse) (deny_unknown : Bool)
    (variable : String) (q : UpstreamRequest)
    → is_foundation_route q.method q.path ≡ true
    → selecting_upstream (some p) fallback deny_unknown variable q ≡ proxy_call p q
unfolding selecting_upstream select_call
selects_proxy p fallback deny_unknown variable q known = ground arith

abbrev pub or_503 : Option UpstreamResponse → UpstreamResponse
or_503 none = record { status_code = 503; body = plain "upstream unavailable" }
or_503 (some resp) = resp

answered :
    (env : Env) (q : UpstreamRequest) (o : Option UpstreamResponse)
    → env.upstream q ≡ o
    → (forward env q).response ≡ or_503 o
unfolding forward
answered env q none h = ground arith
answered env q (some resp) h = ground arith

-- Behind a gateway with a proxy, the simulator is never asked: every request that the handler sends
-- upstream goes to the proxy, whatever the flags and whatever the fallback would answer. Where the
-- proxy fails, the gateway answers 503, and else with the proxy's answer.
pub selecting_upstream-handle :
    (env : Env) (r : Request) (q : UpstreamRequest) (p : Proxy)
    (fallback : UpstreamRequest → Option UpstreamResponse) (deny_unknown : Bool) (variable : String)
    → env.upstream ≡ selecting_upstream (some p) fallback deny_unknown variable
    → (handle env r).forwarded ≡ some q
    → (env.upstream q ≡ proxy_call p q) × ((handle env r).response ≡ or_503 (proxy_call p q))
selecting_upstream-handle env r q p fallback deny_unknown variable built sent =
    let h = handle-IsForwarded env r q sent in
    let same = h.same_call in
    let called : env.upstream q ≡ proxy_call p q =
      ap (λ f. f q) built
      ∙ selects_proxy p fallback deny_unknown variable q (rw (same.0, same.1) h.known_route) in
    (
      called,
      ap (λ (o : Outcome). o.response) (handle-forward env r q sent)
          ∙ answered env q (proxy_call p q) called,
    )
