-- ===== src/Bff/Through.antt =====
-- A request that goes through the gateway and its proxy to the REST service.
use Prim.Native.String.append
use are_foundation.Base.{
  String, true, false, ◌≡◌, refl, ◌∙◌, ap, Option, none, some, Bool-cases, inl, inr, arith, eq_iff,
  ◌==◌,
}
use are_foundation.Base.Text.{trim_suffix}
use are_foundation.Base.Letters.{to_lower}
use are_foundation.Gateway.Model.{UpstreamRequest}
use are_foundation.Gateway.Routes.{
  match_phase1_route, post_route, get_route, is_foundation_route, requires_idempotency_key, is_some,
}
use are_foundation.Gateway.Server
use are_foundation.Gateway.Server.{handle}
use are_foundation.Gateway.Guards.{IsForwarded, handle-IsForwarded}
use are_foundation.Gateway.Proxy.{Proxy, ProxyRequest, proxy_request}
use are_foundation.Bff.Responses.{Request, Response, Env}
use are_foundation.Bff.Handler.{Config, serve, post, get}
use are_foundation.Bff.Entry.{entered, refusal, with_required_headers, is_keyed_path}

-- The request that the service gets for one of the proxy.
abbrev pub arrived : ProxyRequest → Request
arrived r = record {
  method = r.method;
  path = r.path;
  request_id = r.request_id;
  idempotency_key = r.idempotency_key;
  body = r.body;
}

-- What a request needs so that the service's handler answers it.
record IsComplete (req : Request) : Type 0 where
  has_request_id : (req.request_id == "") ≡ false
  has_key :
      requires_idempotency_key req.method req.path ≡ true → (req.idempotency_key == "") ≡ false
  known_route : is_foundation_route req.method req.path ≡ true

known_method :
    (method path : String)
    → is_foundation_route method path ≡ true
    → (method == "POST") ≡ false
    → (method == "GET") ≡ true
unfolding is_foundation_route match_phase1_route
known_method method path known other = ground arith

not_post : (method : String) → (method == "GET") ≡ true → (to_lower method == "post") ≡ false
unfolding to_lower
not_post method h = let is = (eq_iff method "GET").0 h in rw is refl

keyed_again :
    (method path : String)
    → (method == "POST") ≡ true
    → is_keyed_path path ≡ true
    → requires_idempotency_key method path ≡ true
unfolding requires_idempotency_key
keyed_again method path h k = ground arith

passes : (req : Request) → IsComplete req → refusal req ≡ none
unfolding refusal
passes req c = elim (Bool-cases (req.method == "POST")) [
  | inl is_post ↦ ground (arith, c.has_request_id, c.has_key, keyed_again req.method req.path)
  | inr other ↦ ground (
    arith,
    c.has_request_id,
    not_post req.method (known_method req.method req.path c.known_route other),
  )
]

some_answer {ℓ} : {A : Type ℓ} (o : Option A) → is_some o ≡ true → (a : A) × (o ≡ some a)
some_answer none h = absurd (ground arith)
some_answer (some a) h = (a, refl)

lets_in :
    {S : Type 0} (next : Request → S → Option (Response × S)) (req : Request) (s : S)
    → refusal req ≡ none
    → with_required_headers next req s ≡ entered (next req s)
unfolding with_required_headers
lets_in next req s h = rw (with_required_headers, h) refl

module _ {S : Type 0} (cfg : Config S) (env : Env) (req : Request) (s : S) where
  post_answers : is_some (post_route req.path) ≡ true → is_some (post cfg env req s) ≡ true
  unfolding post post_route
  post_answers h = ground arith

  get_answers : is_some (get_route req.path) ≡ true → is_some (get cfg env req s) ≡ true
  unfolding get get_route
  get_answers h = ground arith

  serve_answers :
      env.clean_path req.path ≡ req.path
      → is_foundation_route req.method req.path ≡ true
      → is_some (serve cfg env req s) ≡ true
  unfolding serve is_foundation_route match_phase1_route
  serve_answers clean h =
      ground (arith, eq_iff (env.clean_path req.path) req.path, post_answers, get_answers)

  IsComplete-served :
      IsComplete req
      → env.clean_path req.path ≡ req.path
      → (answer : Response × S) × (with_required_headers (λ (r : Request). serve cfg env r) req s
          ≡ entered (some answer))
  IsComplete-served c clean =
      let (answer, is) = some_answer (serve cfg env req s) (serve_answers clean c.known_route) in
      (
        answer,
        lets_in (λ (r : Request). serve cfg env r) req s (passes req c) ∙ ap (λ o. entered o) is,
      )

proxy_request-IsComplete :
    (gateway : Server.Env) (r : Server.Request) (q : UpstreamRequest) (p : Proxy)
    → trim_suffix p.base_path "/" ≡ ""
    → IsForwarded gateway r q
    → IsComplete (arrived (proxy_request p q))
unfolding proxy_request
proxy_request-IsComplete gateway r q p root f =
    let (method, path, _) = f.same_call in
    let (request_id, key) = f.same_headers in
    record {
      has_request_id = rw request_id f.has_request_id;
      has_key = rw (root, append.nil q.path, method, path, key) f.has_key;
      known_route = rw (root, append.nil q.path, method, path) f.known_route;
    }

arrived-clean :
    (env : Env) (q : UpstreamRequest) (p : Proxy)
    → trim_suffix p.base_path "/" ≡ ""
    → env.clean_path q.path ≡ q.path
    → let path = (arrived (proxy_request p q)).path in env.clean_path path ≡ path
unfolding proxy_request
arrived-clean env q p root clean = rw (root, append.nil q.path) clean

-- A request that the gateway sends to a proxy, whose base URL has no path, is a request that the
-- REST service answers, if its path is one that `http.ServeMux` leaves as it is: its wrapper finds the request id and, where it asks for one, the idempotency
-- key, and its handler has an operation for the route, whatever its repository, policy and services.
pub handle-with_required_headers :
    {S : Type 0} (gateway : Server.Env) (r : Server.Request) (q : UpstreamRequest) (p : Proxy)
    (cfg : Config S) (env : Env) (s : S)
    → (handle gateway r).forwarded ≡ some q
    → trim_suffix p.base_path "/" ≡ ""
    → env.clean_path q.path ≡ q.path
    → (answer : Response × S) × (with_required_headers
          (λ (req : Request). serve cfg env req)
          (arrived (proxy_request p q))
          s
        ≡ entered (some answer))
handle-with_required_headers gateway r q p cfg env s sent root clean =
    IsComplete-served cfg env (arrived (proxy_request p q)) s
      (proxy_request-IsComplete gateway r q p root (handle-IsForwarded gateway r q sent))
      (arrived-clean env q p root clean)
