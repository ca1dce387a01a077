-- ===== src/Bff/Responses.antt =====
-- api/api.go: requests and answers. The body of a request is the object that it decodes to, `none`
-- where decoding fails; the body of an answer is the object that is written.
use are_foundation.Base.{ℕ, String, Bool, false, Option, ◌==◌}
use are_foundation.Base.Int.{ℤ}
use are_foundation.Base.Text.{trim_space}
use are_foundation.Gateway.Model.{bool, text, object, Fields, no_fields, field}
use are_foundation.Bff.Model.{Error, agent_not_found, storage}

-- What the handlers read of a `http.Request`; `request_id` is requestID of it.
pub record Request : Type 0 where
  pub method : String
  pub path : String
  pub request_id : String
  pub idempotency_key : String
  pub body : Option Fields

pub record Response : Type 0 where
  pub status : ℕ
  pub body : Fields

-- The environment, and the functions of Go's libraries that the handlers call: `strconv.ParseInt` in
-- base 10, the conversion of a `float64` to `int64`, the format of an index, and the path that
-- `http.ServeMux` makes of one before it looks for a pattern.
pub record Env : Type 0 where
  pub parse_int : String → Option ℤ
  pub int64_of : ℕ → ℤ
  pub itoa : ℕ → String
  pub clean_path : String → String
  pub deployment_stage : String
  pub s0s1_deployment_stage : String

abbrev pub blank : String → Bool
blank s = trim_space s == ""

-- jsonError
unfoldable pub json_error : String → String → String → Bool → ℕ → Response
json_error request_id code message retryable status = record {
  status = status;
  body =
      field "error"
        (object (
          field "code" (text code) (
            field "message" (text message) (
              field "request_id" (text request_id)
                (field "retryable" (bool retryable) no_fields)))))
        no_fields;
}

abbrev pub invalid : Request → String → Response
invalid req message = json_error req.request_id "INVALID_ARGUMENT" message false 400

abbrev pub storage_error : Request → Response
storage_error req = json_error req.request_id "INTERNAL" "storage error" false 500

abbrev pub marshal_failed : Request → Response
marshal_failed req = json_error req.request_id "INTERNAL" "marshal failed" false 500

abbrev pub missing_key : Request → Response
missing_key req =
    json_error req.request_id "MISSING_IDEMPOTENCY_KEY" "idempotency key required" false 400

abbrev pub not_found : Request → String → Response
not_found req message = json_error req.request_id "NOT_FOUND" message false 404

abbrev pub created : Fields → Response
created body = record { status = 201; body = body }

abbrev pub ok_body : Fields → Response
ok_body body = record { status = 200; body = body }

-- What a failed FinishPassport is answered with.
abbrev pub finish_error : Request → Error → Response
finish_error req agent_not_found = not_found req "unknown agent_id"
finish_error req storage = storage_error req
