-- ===== src/Bff/Handler.antt =====
-- api/api.go: Handler, the routes of the service. What `net/http` answers by itself, to an unknown
-- route or a path that is not clean, is `none`; the middleware that writes the log is left out.
use are_foundation.Base.{not, ◌||◌, Option, none, some, ◌==◌, if◌then◌else◌}
use are_foundation.Base.Text.{has_prefix}
use are_foundation.Bff.Model.{Repository}
use are_foundation.Bff.Responses.{Request, Response, Env}
use are_foundation.Bff.Register.{Backend, register_agent}
use are_foundation.Bff.Agents.{get_agent, deployment_meta}
use are_foundation.Bff.Issue.{issue_passport}
use are_foundation.Bff.Grants.{list_passports_by_agent, verify_passport, evaluate_scope}
use are_foundation.Bff.Policy.{Evaluator, stub, evaluate_policy}

-- Config; without a repository there is no handler
pub record Config (S : Type 0) : Type 0 where
  pub repo : Repository S
  pub policy : Option Evaluator
  pub s0 : Backend

abbrev pub evaluator : Option Evaluator → Evaluator
unfolding stub
evaluator none = stub
evaluator (some evaluate) = evaluate

abbrev reads {ℓ} : {S : Type ℓ} → Response → S → Option (Response × S)
reads response s = some (response, s)

module _ {S : Type 0} (cfg : Config S) (env : Env) (req : Request) where
  -- The patterns of a POST.
  unfoldable pub post : S → Option (Response × S)
  unfolding register_agent issue_passport verify_passport evaluate_scope evaluate_policy stub
  post s =
      if req.path == "/v1/identity/agents"
      then some (register_agent cfg.repo req cfg.s0 s)
      else if req.path == "/v1/passports"
      then some (issue_passport cfg.repo env cfg.s0 req s)
      else if req.path == "/v1/passports:verify"
      then reads (verify_passport cfg.repo req s) s
      else if req.path == "/v1/enforcement/scope:evaluate"
      then reads (evaluate_scope cfg.repo req s) s
      else if req.path == "/v1/policy/evaluations"
      then reads (evaluate_policy (evaluator cfg.policy) req) s
      else none

  -- The patterns of a GET, which match a HEAD too.
  unfoldable pub get : S → Option (Response × S)
  unfolding get_agent list_passports_by_agent deployment_meta
  get s =
      if has_prefix req.path "/v1/identity/agents/"
      then reads (get_agent cfg.repo cfg.s0 req s) s
      else if has_prefix req.path "/v1/passports/by-agent/"
      then reads (list_passports_by_agent cfg.repo req s) s
      else if req.path == "/v1/meta/deployment"
      then reads (deployment_meta env req) s
      else none

  -- Handler; a path that is not clean is redirected
  unfoldable pub serve : S → Option (Response × S)
  unfolding post get
  serve s =
      if not (env.clean_path req.path == req.path)
      then none
      else if req.method == "POST"
      then post s
      else if req.method == "GET" || req.method == "HEAD"
      then get s
      else none
