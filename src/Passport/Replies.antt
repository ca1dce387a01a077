-- ===== src/Passport/Replies.antt =====
-- What the gRPC adapter guarantees of a passport that it answers with.
use are_foundation.Base.{
  ℕ, ◌*◌, ◌≤◌, String, ◌≡◌, ap, ◌∙◌, ◌⊎◌, inl, inr, Option-cases, none, some, arith, List, [], ◌∷◌,
}
use are_foundation.Base.Int.{ℤ, pos, ◌+ℤ◌, second}
use are_foundation.Base.Text.{trim_space}
use are_foundation.Base.Letters.{to_upper}
use are_foundation.Passport.Model.{
  PassportType, provisional, standard, Passport, Result, ok, err, Scope, Env, Service,
}
use are_foundation.Passport.Service.{issue_passport}
use are_foundation.Passport.Grpc.{
  Code, answer, input_of, reply, status, type_of_text, parse_passport_type, PassportProto,
  passport_to_proto, IssueRequest, issue_scopes, handle_issue, unix_milli, status_text,
  scopes_from_proto,
}
use are_foundation.Passport.Issue.{issue_passport_bounds}

type_of_text_known :
    (t : String) (p : PassportType) → type_of_text t ≡ some p → (p ≡ provisional) ⊎ (p ≡ standard)
unfolding type_of_text
type_of_text_known t p h = ground arith

-- The type that a request names is one of the two that have a ceiling on their duration.
parse_passport_type_known :
    (raw : String) (p : PassportType)
    → parse_passport_type raw ≡ some p
    → (p ≡ provisional) ⊎ (p ≡ standard)
unfolding parse_passport_type
parse_passport_type_known raw p h = type_of_text_known (to_upper (trim_space raw)) p h

-- An answered passport is ACTIVE and lasts as the request says.
pub record IsBounded (env : Env) (req : IssueRequest) (q : PassportProto) : Type 0 where
  pub seconds : ℕ
  pub requested : req.ttl_seconds ≡ pos seconds
  pub least : 300 ≤ seconds
  pub most : seconds ≤ 2592000
  pub is_active : q.status ≡ "ACTIVE"
  pub expiry : q.expires_ts ≡ unix_milli (env.now +ℤ pos (seconds * second))

answer-reply :
    (r : Result Passport × Service) (q : PassportProto) (t : Service)
    → answer r ≡ (reply q, t)
    → (p : Passport) × (r ≡ (ok p, t)) × (q ≡ passport_to_proto p)
unfolding answer
answer-reply (ok p, s) q t h = (p, cc, cc)
answer-reply (err e, s) q t h = cc

issue_scopes-reply :
    (env : Env) (req : IssueRequest) (p_type : PassportType) (scopes : List Scope) (s : Service)
    (q : PassportProto) (t : Service)
    → issue_scopes env req p_type scopes s ≡ (reply q, t)
    → (p : Passport) × (issue_passport env (input_of req p_type scopes) s ≡ (ok p, t))
      × (q ≡ passport_to_proto p)
unfolding issue_scopes
issue_scopes-reply env req p_type [] s q t h = cc
issue_scopes-reply env req p_type (x ∷ xs) s q t h = answer-reply _ q t h

issue_scopes_bounds :
    (env : Env) (req : IssueRequest) (p_type : PassportType) (scopes : List Scope) (s t : Service)
    (q : PassportProto)
    → (p_type ≡ provisional) ⊎ (p_type ≡ standard)
    → issue_scopes env req p_type scopes s ≡ (reply q, t)
    → IsBounded env req q
unfolding passport_to_proto
issue_scopes_bounds env req p_type scopes s t q known h =
    let (p, issued, shown) = issue_scopes-reply env req p_type scopes s q t h in
    let (n, requested, least, most, _, st, expiry) =
      issue_passport_bounds env (input_of req p_type scopes) s t p issued known in
    record {
      seconds = n;
      requested = requested;
      least = least;
      most = most;
      is_active = ap (λ (x : PassportProto). x.status) shown ∙ ap status_text st;
      expiry = ap (λ (x : PassportProto). x.expires_ts) shown ∙ ap unix_milli expiry;
    }

module _ (env : Env) (granted : ℤ) (uuids : ℕ → String) (req : IssueRequest) (s : Service) where
  handle_issue_unknown :
      parse_passport_type req.passport_type ≡ none
      → handle_issue env granted uuids (some req) s ≡ (status Code.invalid_argument, s)
  unfolding handle_issue
  handle_issue_unknown unknown = rw (unknown, handle_issue)

  handle_issue_named :
      (p_type : PassportType) (q : PassportProto) (t : Service)
      → parse_passport_type req.passport_type ≡ some p_type
      → handle_issue env granted uuids (some req) s ≡ (reply q, t)
      → issue_scopes env req p_type
          (scopes_from_proto uuids req.ttl_seconds granted 0 req.requested_scopes)
          s
        ≡ (reply q, t)
  unfolding handle_issue
  handle_issue_named p_type q t named h = ground arith

-- A passport that IssuePassport answers with was asked for with a duration of 300 to 2592000
-- seconds; it is ACTIVE, and expires that long after its issue, in milliseconds.
pub handle_issue_bounds :
    (env : Env) (granted : ℤ) (uuids : ℕ → String) (req : IssueRequest) (s t : Service)
    (q : PassportProto)
    → handle_issue env granted uuids (some req) s ≡ (reply q, t)
    → IsBounded env req q
handle_issue_bounds env granted uuids req s t q h =
    elim (Option-cases (parse_passport_type req.passport_type)) [
      | inl unknown ↦ cc (handle_issue_unknown env granted uuids req s unknown)
      | inr (p_type, named) ↦
          issue_scopes_bounds env req p_type _ s t q
            (parse_passport_type_known req.passport_type p_type named)
            (handle_issue_named env granted uuids req s p_type q t named h)
    ]
