-- ===== src/Gateway/Replay.antt =====
-- The registration of the simulator, and the replays of its key.
use Prim.Native.String
use Prim.Native.Char.{Char, code}
use Prim.Native.String.append
use Prim.Native.String.compare.{cons-nil}
use are_foundation.Base.{
  String, Bool, true, false, not, ◌&&◌, eqb, sym, ap, ◌∙◌, ◌⊎◌, inl, inr, ◌≡◌, ◌≢◌, refl, none,
  some, ◌==◌, arith, eq_iff, eq_refl,
}
use are_foundation.Base.Text.{trim_space}
use are_foundation.Base.Dict
use are_foundation.Base.Dict.{get-put}
use are_foundation.Gateway.Model.{Fields, text_at, UpstreamRequest, UpstreamResponse}
use are_foundation.Gateway.Simulator.{
  Simulator, handle_register_agent, register_new, replay_register, json_error, fingerprint,
  created_agent,
}

starts : (c : Char) (t : String) → (String.◌∷◌ c t == "") ≡ false
starts c t = ground (arith, cons-nil c t)

nonempty : (a m b : String) → (m == "") ≡ false → (String.◌++◌ a (String.◌++◌ m b) == "") ≡ false
nonempty String.[] String.[] b h = absurd (ground (arith, eq_refl ""))
nonempty String.[] (String.◌∷◌ c m) b h = ground (
  arith,
  append.nil (String.◌++◌ (String.◌∷◌ c m) b),
  append.cons c m b,
  starts c (String.◌++◌ m b),
)
nonempty (String.◌∷◌ c a) m b h =
    ground (arith, append.cons c a (String.◌++◌ m b), starts c (String.◌++◌ a (String.◌++◌ m b)))

fingerprint_given : (payload : Fields) → (fingerprint payload == "") ≡ false
unfolding fingerprint
fingerprint_given payload =
    nonempty (trim_space (text_at "agent_type" payload)) "\0"
      (trim_space (text_at "owner_id" payload)) refl

register_first :
    (req : UpstreamRequest) (payload : Fields) (s : Simulator)
    → req.body ≡ some payload
    → Dict.get s.idempotent_resp (String.◌++◌ "RegisterAgent:" req.idempotency_key) ≡ none
    → (handle_register_agent req s).0.status_code ≡ 201
    → ((req.idempotency_key == "") ≡ false)
      × (handle_register_agent req s ≡ register_new req payload s)
unfolding handle_register_agent json_error
register_first req payload s body fresh created = (ground arith, ground arith)

register_new_writes :
    (req : UpstreamRequest) (payload : Fields) (s : Simulator)
    → (register_new req payload s).0.status_code ≡ 201
    → let key = String.◌++◌ "RegisterAgent:" req.idempotency_key in
      let r = register_new req payload s in
      (Dict.get r.1.idempotent_resp key ≡ some r.0)
      × (Dict.get r.1.idempotent_body_hash key ≡ some (fingerprint payload))
unfolding register_new json_error
register_new_writes req payload s created =
    let key = String.◌++◌ "RegisterAgent:" req.idempotency_key in
    (
      ground (arith, get-put s.idempotent_resp key key (created_agent req payload), eq_refl key),
      ground (arith, get-put s.idempotent_body_hash key key (fingerprint payload), eq_refl key),
    )

replayed :
    (again : UpstreamRequest) (payload : Fields) (resp : UpstreamResponse) (fp : String)
    (u : Simulator)
    → (again.idempotency_key == "") ≡ false
    → again.body ≡ some payload
    → (fp == "") ≡ false
    → let key = String.◌++◌ "RegisterAgent:" again.idempotency_key in
      Dict.get u.idempotent_resp key ≡ some resp
      → Dict.get u.idempotent_body_hash key ≡ some fp
      → (fp ≡ fingerprint payload → handle_register_agent again u ≡ (resp, u))
        × (fp ≢ fingerprint payload
            → ((handle_register_agent again u).0.status_code ≡ 409)
              × ((handle_register_agent again u).1 ≡ u))
unfolding handle_register_agent replay_register json_error
replayed again payload resp fp u keyed body given stored hashed = (
  λ same. ground (arith, eq_iff fp (fingerprint payload)),
  λ differs. (ground (arith, eq_iff fp (fingerprint payload)), ground arith),
)

-- A text without the character that separates the two parts of a fingerprint.
unfoldable pub lacks_nul : String → Bool
lacks_nul String.[] = true
lacks_nul (String.◌∷◌ c s) = not (eqb (code c) 0) && lacks_nul s

tail_eq : (c d : Char) (a b : String) → String.◌∷◌ c a ≡ String.◌∷◌ d b → (c ≡ d) × (a ≡ b)
tail_eq c d a b h = (cc, cc)

nul_append : (rest : String) → String.◌++◌ "\0" rest ≡ String.◌∷◌ "\0" rest
nul_append rest = append.cons "\0" String.[] rest ∙ ap (String.◌∷◌ "\0") (append.nil rest)

separated : (c : Char) → eqb (code c) 0 ≡ false → c ≢ "\0"
separated c h is = let e : eqb (code c) 0 ≡ true = ap (λ x. eqb (code x) 0) is in ground arith

-- The parts of a text before and after its first separator are given by the text.
parts_eq :
    (a b x y : String)
    → lacks_nul a ≡ true
    → lacks_nul b ≡ true
    → String.◌++◌ a (String.◌∷◌ "\0" x) ≡ String.◌++◌ b (String.◌∷◌ "\0" y)
    → (a ≡ b) × (x ≡ y)
unfolding lacks_nul
parts_eq String.[] String.[] x y p q h =
    let e =
      tail_eq "\0" "\0" x y
        (sym (append.nil (String.◌∷◌ "\0" x)) ∙ h ∙ append.nil (String.◌∷◌ "\0" y)) in
    (refl, e.1)
parts_eq String.[] (String.◌∷◌ d b) x y p q h =
    let e =
      tail_eq "\0" d x (String.◌++◌ b (String.◌∷◌ "\0" y))
        (sym (append.nil (String.◌∷◌ "\0" x)) ∙ h ∙ append.cons d b (String.◌∷◌ "\0" y)) in
    absurd (separated d (ground arith) (sym e.0))
parts_eq (String.◌∷◌ c a) String.[] x y p q h =
    let e =
      tail_eq c "\0" (String.◌++◌ a (String.◌∷◌ "\0" x)) y
        (sym (append.cons c a (String.◌∷◌ "\0" x)) ∙ h ∙ append.nil (String.◌∷◌ "\0" y)) in
    absurd (separated c (ground arith) e.0)
parts_eq (String.◌∷◌ c a) (String.◌∷◌ d b) x y p q h =
    let e =
      tail_eq c d (String.◌++◌ a (String.◌∷◌ "\0" x)) (String.◌++◌ b (String.◌∷◌ "\0" y))
        (sym (append.cons c a (String.◌∷◌ "\0" x)) ∙ h ∙ append.cons d b (String.◌∷◌ "\0" y)) in
    let rest = parts_eq a b x y (ground arith) (ground arith) e.1 in
    ((λ i. String.◌∷◌ (e.0 i) (rest.0 i)), rest.1)

-- The agent type and the owner of a body, without the spaces around them.
abbrev pub type_of : Fields → String
type_of payload = trim_space (text_at "agent_type" payload)

abbrev pub owner_of : Fields → String
owner_of payload = trim_space (text_at "owner_id" payload)

fingerprint_same :
    (p q : Fields) → type_of p ≡ type_of q → owner_of p ≡ owner_of q → fingerprint p ≡ fingerprint q
unfolding fingerprint
fingerprint_same p q t o = rw (t, o) refl

fingerprint_parts :
    (p q : Fields)
    → lacks_nul (type_of p) ≡ true
    → lacks_nul (type_of q) ≡ true
    → fingerprint p ≡ fingerprint q
    → (type_of p ≡ type_of q) × (owner_of p ≡ owner_of q)
unfolding fingerprint
fingerprint_parts p q tp tq h = parts_eq (type_of p) (type_of q) (owner_of p) (owner_of q) tp tq (
    ap (String.◌++◌ (type_of p)) (sym (nul_append (owner_of p)))
    ∙ h
    ∙ ap (String.◌++◌ (type_of q)) (nul_append (owner_of q)))

-- After a registration that created an agent, a request with the same key changes nothing. Where its
-- agent type and owner are the same, up to spaces around them, it is answered like the first one,
-- whatever its metadata and the rest of its body; where one of the two differs, it is answered with
-- a conflict, 409: for agent types without a NUL character.
pub register-replay :
    (req again : UpstreamRequest) (payload payload2 : Fields) (s : Simulator)
    → req.body ≡ some payload
    → again.body ≡ some payload2
    → again.idempotency_key ≡ req.idempotency_key
    → lacks_nul (type_of payload) ≡ true
    → lacks_nul (type_of payload2) ≡ true
    → Dict.get s.idempotent_resp (String.◌++◌ "RegisterAgent:" req.idempotency_key) ≡ none
    → (handle_register_agent req s).0.status_code ≡ 201
    → let r = handle_register_agent req s in
      (type_of payload ≡ type_of payload2
        → owner_of payload ≡ owner_of payload2
        → handle_register_agent again r.1 ≡ r)
      × ((type_of payload ≢ type_of payload2) ⊎ (owner_of payload ≢ owner_of payload2)
          → ((handle_register_agent again r.1).0.status_code ≡ 409)
            × ((handle_register_agent again r.1).1 ≡ r.1))
register-replay req again payload payload2 s body body2 same plain plain2 fresh created =
    let (keyed, is) = register_first req payload s body fresh created in
    let made : (register_new req payload s).0.status_code ≡ 201 = rw⁻¹ is created in
    let (stored, hashed) = register_new_writes req payload s made in
    let (alike, conflict) =
      replayed again payload2 (register_new req payload s).0 (fingerprint payload)
        (register_new req payload s).1 (rw same keyed) body2 (fingerprint_given payload)
        (rw same stored) (rw same hashed) in
    let parts = fingerprint_parts payload payload2 plain plain2 in
    rw is (
      (λ t o. alike (fingerprint_same payload payload2 t o)),
      λ differ.
          conflict
            (λ h. elim differ [ inl types ↦ types (parts h).0 | inr owners ↦ owners (parts h).1 ]),
    )
