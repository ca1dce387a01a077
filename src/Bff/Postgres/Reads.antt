-- ===== src/Bff/Postgres/Reads.antt =====
-- repo/postgres.go: the methods that read, and the store behind the interface.
use are_foundation.Base.{String, Bool, Option, none, some, List, [], ◌∷◌, ◌==◌, if◌then◌else◌}
use are_foundation.Base.Dict
use are_foundation.Base.Dict.{Dict}
use are_foundation.Gateway.Model.{Json, null, object, Fields, no_fields, field}
use are_foundation.Bff.Model.{AgentRec, storage, Result, ok, err, Repository}
use are_foundation.Bff.Postgres.{
  AgentRow, PassportRow, Tables, Conn, finish_register, finish_passport,
}

-- The metadata that is read: an empty map where the column holds no object.
unfoldable pub metadata_of : Json → Fields
metadata_of (object fields) = fields
metadata_of _ = no_fields

-- The columns that `GetAgent` reads; the envelope stays nil.
unfoldable pub rec_of : AgentRow → AgentRec
unfolding metadata_of
rec_of row = record {
  agent_type = row.agent_type;
  owner_id = row.owner_id;
  metadata = metadata_of row.metadata_json;
  status = row.status;
  admission_envelope = none;
}

abbrev pub read_rec : Option AgentRow → Option AgentRec
read_rec none = none
read_rec (some row) = some (rec_of row)

-- GetAgent
unfoldable pub get_agent : Conn → String → Tables → Result (Option AgentRec)
unfolding rec_of
get_agent c agent_id t = if c.read then err storage else ok (read_rec (Dict.get t.agents agent_id))

-- What `GetAdmissionEnvelope` makes of the column: a value that is no object is an error.
unfoldable pub read_envelope : Option Json → Result (Option Fields)
read_envelope none = ok none
read_envelope (some null) = ok none
read_envelope (some (object no_fields)) = ok none
read_envelope (some (object (field k v rest))) = ok (some (field k v rest))
read_envelope (some _) = err storage

-- GetAdmissionEnvelope
unfoldable pub get_admission_envelope : Conn → String → Tables → Result (Option Fields)
unfolding read_envelope
get_admission_envelope c agent_id t =
    if c.read then err storage else (elim (Dict.get t.agents agent_id) [
      | none ↦ ok none
      | some row ↦ read_envelope row.admission_envelope_json
    ])

-- GetRegisterIdem and GetPassportIdem, on their tables
unfoldable pub get_idem : Conn → String → Dict Fields → Result (Option Fields)
get_idem c key rows = if c.read then err storage else ok (Dict.get rows key)

abbrev insert_ordered :
    (String → String → Bool) → String → Fields → List (String × Fields) → List (String × Fields)
insert_ordered after id body [] = (id, body) ∷ []
insert_ordered after id body ((other, b) ∷ rows) =
    let rest = insert_ordered after id body rows in
    if after id other then (other, b) ∷ rest else (id, body) ∷ (other, b) ∷ rows

abbrev bodies : List (String × Fields) → List Fields
bodies [] = []
bodies ((id, body) ∷ rows) = body ∷ bodies rows

-- ListPassportBodiesByAgent: the rows of an agent, ORDER BY passport_id
unfoldable pub list_passport_bodies_by_agent : Conn → String → Tables → Result (List Fields)
list_passport_bodies_by_agent c agent_id t =
    if c.read
    then err storage
    else ok (
        bodies (
          Dict.fold
            (λ id (row : PassportRow) rows.
              if row.agent_id == agent_id
              then insert_ordered c.after id row.response_body rows
              else rows)
            [] t.passports))

abbrev pub read_body : Option PassportRow → Option Fields
read_body none = none
read_body (some row) = some row.response_body

-- GetPassportBody
unfoldable pub get_passport_body : Conn → String → Tables → Result (Option Fields)
get_passport_body c passport_id t =
    if c.read then err storage else ok (read_body (Dict.get t.passports passport_id))

-- Postgres
unfoldable pub postgres : Conn → Repository Tables
unfolding get_agent get_admission_envelope get_idem list_passport_bodies_by_agent get_passport_body
postgres c = record {
  get_register_idem = λ key t. get_idem c key t.register_idem;
  finish_register = finish_register c;
  get_agent = get_agent c;
  get_admission_envelope = get_admission_envelope c;
  get_passport_idem = λ key t. get_idem c key t.passport_idem;
  finish_passport = finish_passport c;
  list_passport_bodies_by_agent = list_passport_bodies_by_agent c;
  get_passport_body = get_passport_body c;
}
