-- ===== src/Bff/Requests.antt =====
-- Requests to the REST service, and the theorems at them.
use are_foundation.Base.{
  ℕ, String, true, false, ◌≡◌, ◌↔◌, refl, none, some, Option, List, List, [], ◌∷◌, get_elem?,
}
use are_foundation.Base.Int.{pos}
use are_foundation.Base.Dict
use are_foundation.Base.Text.{trim_space}
use are_foundation.Gateway.Model.{text, Fields, no_fields, field, at, text_at, UpstreamRequest}
use are_foundation.Gateway.Simulator.{World}
use are_foundation.Gateway.Decisions.{handle_evaluate_policy}
use are_foundation.Bff.Model.{Error, ok, err, object_at}
use are_foundation.Bff.Memory
use are_foundation.Bff.Memory.{Memory, memory, new_memory}
use are_foundation.Bff.Responses.{Request, blank}
use are_foundation.Bff.Delegate.{Codec}
use are_foundation.Bff.Register.{
  Backend, register_agent, register_payload, register_first, register_local,
}
use are_foundation.Bff.Policy.{evaluate_policy, stub}
use are_foundation.Bff.Demo.{IsSame, evaluate_policy-IsSame}
use are_foundation.Bff.Grants.{scope_allows}
use are_foundation.Bff.Scopes.{Grants, Granted, IsAllowed, scope_allows_iff}
use are_foundation.Bff.Examples.{passport_p}
use are_foundation.Base.Letters.{to_upper}
use are_foundation.Bff.Delegate
use are_foundation.Registry.Grpc
use are_foundation.Registry.Model as Registry
use are_foundation.Registry.Domain.{validate_agent_type, validate_agent_metadata}
use are_foundation.Registry.Service.{register_with_admission}
use are_foundation.Registry.Repository.{register_agent_with_outbox}
use are_foundation.Registry.Tables.{
  transact, ◌>>=◌, insert_agent, insert_some_envelope, insert_history, insert_outbox,
}
use are_foundation.Registry.Model.{Any}
use are_foundation.Registry.Lifecycle.{no_rows}
use are_foundation.Registry.Examples.{env_at}
use are_foundation.Bff.Register.{register_key, register_upstream}
use are_foundation.Bff.Services.{registry_client, received}
use are_foundation.Bff.Composed.{with_registry, IsReadable, register_agent-read_agent}

abbrev payload : String → Fields
payload owner = field "agent_type" (text "SYSTEM") (field "owner_id" (text owner) no_fields)

abbrev sent : Fields → Request
sent body = record {
  method = "POST";
  path = "/v1/identity/agents";
  request_id = "r1";
  idempotency_key = "k";
  body = some body;
}

abbrev codec : Codec
codec = record {
  sprint = λ j. "";
  marshal_text = λ j. "";
  marshal = λ fields. some [];
  text_of = λ bytes. "";
  number_of = λ n. 0;
}

abbrev alone : Backend
alone = record { codec = codec; reg = none; pass = none }

created : (register_agent memory (sent (payload "o")) alone new_memory).0.status ≡ 201
unfolding register_agent register_payload register_first register_local text_at at object_at
    trim_space memory Memory.finish_register new_memory Dict.get Dict.empty
created = refl

abbrev question : Fields
question = field "decision_id" (text "d") (
    field "agent_id" (text "a")
      (field "action_class" (text "demo.read") (field "resource" (text "acct/1") no_fields)))

abbrev forwarded : UpstreamRequest
forwarded = record {
  method = "POST";
  path = "/v1/policy/evaluations";
  raw_query = "";
  body = some question;
  agent_id = "a";
  request_id = "r1";
  identity = "ops";
  idempotency_key = "k";
  authorization = "Bearer t";
  content_type = "application/json";
  traceparent = "";
}

abbrev world : World
world = record {
  now = pos 5;
  int64_of = λ bits. pos bits;
  itoa = λ n. "0";
  rfc3339 = λ t. "";
  deployment_stage = "";
  opa = none;
}

evaluate_policy-IsSame_example :
    IsSame (evaluate_policy stub (sent question)) (handle_evaluate_policy world forwarded)
evaluate_policy-IsSame_example =
    evaluate_policy-IsSame world (sent question) forwarded refl refl refl

abbrev issued : Memory
issued = record {
  agents = Dict.empty;
  register_idem = Dict.empty;
  passport_idem = Dict.empty;
  passports = Dict.put Dict.empty "p" passport_p;
  by_agent = Dict.put Dict.empty "a" ("p" ∷ []);
}

scope_allows_iff_example :
    let answer = scope_allows memory "a" "p" "READ" "doc/1" issued in
    (blank "p" ≡ false
      → ((stored : Option Fields)
          → memory.get_passport_body "p" issued ≡ ok stored
          → IsAllowed answer ↔ Granted "a" "READ" "doc/1" stored)
        × ((e : Error) → memory.get_passport_body "p" issued ≡ err e → answer ≡ err e))
    × (blank "p" ≡ true
        → ((bodies : List Fields)
            → memory.list_passport_bodies_by_agent "a" issued ≡ ok bodies
            → IsAllowed answer ↔ (
                (i : ℕ) × (body : Fields) × (get_elem? bodies i ≡ some body)
                × Grants "a" "READ" "doc/1" body))
          × ((e : Error)
              → memory.list_passport_bodies_by_agent "a" issued ≡ err e
              → answer ≡ err e))
scope_allows_iff_example = scope_allows_iff memory "a" "p" "READ" "doc/1" issued

-- The registry behind the service.
abbrev decode : List ℕ → Option (Dict.Dict Any)
decode bytes = none

abbrev dialled : Backend
dialled = with_registry alone (env_at "a" (pos 1)) decode no_rows

registers : (register_agent memory (sent (payload "o")) dialled new_memory).0.status ≡ 201
unfolding register_agent register_payload register_first register_upstream text_at at object_at
    trim_space memory Memory.finish_register new_memory Dict.get Dict.empty registry_client received
    Delegate.register Grpc.register_agent Dict.size Dict.fold register_with_admission
    validate_agent_type validate_agent_metadata to_upper register_agent_with_outbox transact ◌>>=◌
    insert_agent insert_some_envelope insert_history insert_outbox
registers = refl

unused : Dict.get new_memory.register_idem (register_key (sent (payload "o"))) ≡ none
unfolding new_memory
unused = Dict.get-empty _

register_agent-read_agent_example :
    IsReadable dialled
      (env_at "a" (pos 1))
      (env_at "" (pos 2))
      decode
      no_rows
      (payload "o")
      (register_agent memory (sent (payload "o")) dialled new_memory)
register_agent-read_agent_example =
    register_agent-read_agent (env_at "a" (pos 1)) (env_at "" (pos 2)) decode no_rows dialled
      (sent (payload "o")) (payload "o") new_memory refl refl refl unused registers

abbrev robot : Fields
robot = field "agent_type" (text "ROBOT") (field "owner_id" (text "o") no_fields)
