-- ===== src/Gateway/Model.antt =====
-- The data of the gateway: gateway.go and upstream.go. Bodies that `encoding/json` writes or reads
-- are given as the values that they encode.
use are_foundation.Base.{ℕ, String, Bool, Option, ◌==◌, some, none, if◌then◌else◌}

mutual
  -- A JSON value; a number by the bits of its `float64`.
  pub data Json : Type 0 where
    null : Json
    bool : Bool → Json
    number : ℕ → Json
    text : String → Json
    array : Items → Json
    object : Fields → Json

  pub data Items : Type 0 where
    no_items : Items
    item : Json → Items → Items

  pub data Fields : Type 0 where
    no_fields : Fields
    field : String → Json → Fields → Fields

-- `payload[key]`, where a missing key is nil
unfoldable pub at : String → Fields → Json
at key no_fields = null
at key (field k v rest) = if k == key then v else at key rest

abbrev pub as_text : Json → String
as_text (text s) = s
as_text _ = ""

-- `s, _ := payload[key].(string)`
unfoldable pub text_at : String → Fields → String
unfolding at
text_at key payload = as_text (at key payload)

-- A field of a struct that `json.Unmarshal` fills: `none` is its error.
abbrev pub string_field : Json → Option String
string_field (text s) = some s
string_field null = some ""
string_field _ = none

-- What is written to the client: a plain text, or an encoded value.
pub data Body : Type 0 where
  plain : String → Body
  encoded : Fields → Body

-- UpstreamResponse
pub record UpstreamResponse : Type 0 where
  pub status_code : ℕ
  pub body : Body

-- UpstreamRequest; the body is what `json.Unmarshal` makes of it, `none` an error
pub record UpstreamRequest : Type 0 where
  pub method : String
  pub path : String
  pub raw_query : String
  pub body : Option Fields
  pub agent_id : String
  pub request_id : String
  pub identity : String
  pub idempotency_key : String
  pub authorization : String
  pub content_type : String
  pub traceparent : String
