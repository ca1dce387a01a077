-- ===== src/Gateway/Guards.antt =====
-- What the guards of the gateway's handler let pass.
use are_foundation.Base.{
  ◌∙◌, String, true, false, ◌≡◌, refl, Option, some, inl, inr, ◌==◌, arith, Option-cases,
}
use are_foundation.Base.Text.{trim_prefix}
use are_foundation.Gateway.Model.{Fields, UpstreamRequest}
use are_foundation.Gateway.Routes.{is_foundation_route, requires_idempotency_key}
use are_foundation.Gateway.Server.{
  Request, Env, handle, handle_api, handle_authenticated, forward, authenticate, authorize_metrics,
  is_bearer, upstream_request,
}

-- What holds of a request that the gateway sends upstream as `q`.
pub record IsForwarded (env : Env) (r : Request) (q : UpstreamRequest) : Type 0 where
  pub authenticated : env.validate (trim_prefix r.authorization "Bearer ") ≡ some q.identity
  pub in_time : env.deadline_exceeded ≡ false
  pub bearer : is_bearer r.authorization ≡ true
  pub has_request_id : (r.request_id == "") ≡ false
  pub has_agent_id : (r.agent_id == "") ≡ false
  pub has_key : requires_idempotency_key r.method r.path ≡ true → (r.idempotency_key == "") ≡ false
  pub known_route : is_foundation_route r.method r.path ≡ true
  pub same_call : (q.method ≡ r.method) × (q.path ≡ r.path) × (r.body ≡ some q.body)
  pub same_headers : (q.request_id ≡ r.request_id) × (q.idempotency_key ≡ r.idempotency_key)

authenticated_only :
    (env : Env) (r : Request) (identity : String) (q : UpstreamRequest)
    → (handle_authenticated env r identity).forwarded ≡ some q
    → (is_foundation_route r.method r.path ≡ true)
      × ((body : Option Fields) × (r.body ≡ some body) × (q ≡ upstream_request env r identity body))
unfolding handle_authenticated forward
authenticated_only env r identity q h = elim (Option-cases r.body) [
  | inl unread ↦ absurd (ground arith)
  | inr (body, is) ↦ (ground arith, (body, is, ground arith))
]

handle_forwarded :
    (env : Env) (r : Request) (q : UpstreamRequest)
    → (handle env r).forwarded ≡ some q
    → (handle_api env r).forwarded ≡ some q
unfolding handle
handle_forwarded env r q h = elim (Option-cases (authorize_metrics env r.authorization)) [
  | inl allowed ↦ ground arith
  | inr (message, denied) ↦ ground arith
]

api_forwarded :
    (env : Env) (r : Request) (q : UpstreamRequest)
    → (handle_api env r).forwarded ≡ some q
    → ((r.request_id == "") ≡ false)
      × (requires_idempotency_key r.method r.path ≡ true → (r.idempotency_key == "") ≡ false)
      × (is_bearer r.authorization ≡ true)
      × ((r.agent_id == "") ≡ false)
      × ((identity : String) × (authenticate env r.authorization ≡ some identity)
          × ((handle_authenticated env r identity).forwarded ≡ some q))
unfolding handle_api
api_forwarded env r q h = elim (Option-cases (authenticate env r.authorization)) [
  | inl refused ↦ absurd (ground arith)
  | inr (identity, is) ↦ (
    ground arith,
    (λ needed. ground arith),
    ground arith,
    ground arith,
    (identity, is, ground arith),
  )
]

authenticate_ok :
    (env : Env) (authz identity : String)
    → authenticate env authz ≡ some identity
    → (env.deadline_exceeded ≡ false) × (env.validate (trim_prefix authz "Bearer ") ≡ some identity)
unfolding authenticate
authenticate_ok env authz identity h = ground arith

-- A request that is sent upstream is answered by the call of the upstream.
handle_is_api :
    (env : Env) (r : Request) (q : UpstreamRequest)
    → (handle env r).forwarded ≡ some q
    → handle env r ≡ handle_api env r
unfolding handle
handle_is_api env r q h = elim (Option-cases (authorize_metrics env r.authorization)) [
  | inl allowed ↦ ground arith
  | inr (message, denied) ↦ ground arith
]

api_is_authenticated :
    (env : Env) (r : Request) (q : UpstreamRequest) (identity : String)
    → authenticate env r.authorization ≡ some identity
    → (handle_api env r).forwarded ≡ some q
    → handle_api env r ≡ handle_authenticated env r identity
unfolding handle_api
api_is_authenticated env r q identity is h = ground arith

authenticated_is_forward :
    (env : Env) (r : Request) (q : UpstreamRequest) (identity : String)
    → (handle_authenticated env r identity).forwarded ≡ some q
    → handle_authenticated env r identity ≡ forward env q
unfolding handle_authenticated
authenticated_is_forward env r q identity h =
    let (known, (body, readable, is)) = authenticated_only env r identity q h in
    rw is (ground arith)

pub handle-forward :
    (env : Env) (r : Request) (q : UpstreamRequest)
    → (handle env r).forwarded ≡ some q
    → handle env r ≡ forward env q
handle-forward env r q h =
    let (_, _, _, _, (identity, accepted, sent)) =
      api_forwarded env r q (handle_forwarded env r q h) in
    handle_is_api env r q h
    ∙ api_is_authenticated env r q identity accepted (handle_forwarded env r q h)
    ∙ authenticated_is_forward env r q identity sent

-- The gateway sends a request upstream only with a bearer token that its validator took in time, as
-- the identity that the validator gave, with a request id, an agent id, an idempotency key where
-- the route needs one, for a route of the S0/S1 surface, and with the method, path, body, request
-- id and idempotency key of the client.
pub handle-IsForwarded :
    (env : Env) (r : Request) (q : UpstreamRequest)
    → (handle env r).forwarded ≡ some q
    → IsForwarded env r q
handle-IsForwarded env r q h =
    let (has_id, has_key, bearer, has_agent, (identity, accepted, sent)) =
      api_forwarded env r q (handle_forwarded env r q h) in
    let (known, (body, readable, is)) = authenticated_only env r identity q sent in
    let (in_time, valid) = authenticate_ok env r.authorization identity accepted in
    record {
      authenticated = rw is valid;
      in_time = in_time;
      bearer = bearer;
      has_request_id = has_id;
      has_agent_id = has_agent;
      has_key = has_key;
      known_route = known;
      same_call = rw is (refl, refl, readable);
      same_headers = rw is (refl, refl);
    }
