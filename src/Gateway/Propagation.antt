-- ===== src/Gateway/Propagation.antt =====
-- The trace context that goes upstream.
use Prim.Native.String.compare.{cons-nil}
use are_foundation.Base.{
  ℕ, suc, subst, String, Bool, true, false, ◌≡◌, ◌∙◌, ap, Option, none, some, some_inj, List, [],
  ◌∷◌, ◌==◌, if◌then◌else◌, arith,
}
use are_foundation.Base.Text.{trim_space, byte_len}
use are_foundation.Gateway.Headers.{flags, parse-header}
use are_foundation.Gateway.Tracing.{
  split, all_hex, parse_uint8, TraceparentParts, parse_parts, parse_traceparent, TraceEnv,
  trace_from, start_server_trace, header, traceparent, with_flags,
}

-- The identifiers of a header that is read.
pub record IsContext (parts : TraceparentParts) : Type 0 where
  pub trace_hex : all_hex parts.trace_id ≡ true
  pub span_hex : all_hex parts.parent_span_id ≡ true
  pub trace_long : byte_len parts.trace_id ≡ 32
  pub span_long : byte_len parts.parent_span_id ≡ 16

flags-IsContext :
    (trace_id span_id : String) (last : Option ℕ) (parts : TraceparentParts)
    → all_hex trace_id ≡ true
    → all_hex span_id ≡ true
    → byte_len trace_id ≡ 32
    → byte_len span_id ≡ 16
    → with_flags trace_id span_id last ≡ some parts
    → IsContext parts
flags-IsContext trace_id span_id none parts t s l m h = absurd (ground arith)
flags-IsContext trace_id span_id (some n) parts t s l m h =
    subst IsContext (some_inj h)
      (record { trace_hex = t; span_hex = s; trace_long = l; span_long = m })

parts-IsContext :
    (l : List String) (parts : TraceparentParts) → parse_parts l ≡ some parts → IsContext parts
unfolding parse_parts
parts-IsContext [] parts h = absurd (ground arith)
parts-IsContext (a ∷ []) parts h = absurd (ground arith)
parts-IsContext (a ∷ b ∷ []) parts h = absurd (ground arith)
parts-IsContext (a ∷ b ∷ c ∷ []) parts h = absurd (ground arith)
parts-IsContext (a ∷ b ∷ c ∷ d ∷ []) parts h =
    flags-IsContext b c (parse_uint8 d) parts (ground arith) (ground arith) (ground arith)
      (ground arith) (ground arith)
parts-IsContext (a ∷ b ∷ c ∷ d ∷ e ∷ l) parts h = absurd (ground arith)

parse-IsContext :
    (value : String) (parts : TraceparentParts)
    → parse_traceparent value ≡ some parts
    → IsContext parts
unfolding parse_traceparent
parse-IsContext value parts h = parts-IsContext (split b'-' (trim_space value)) parts h

nonempty : (s : String) (n : ℕ) → byte_len s ≡ suc n → (s == "") ≡ false
unfolding byte_len
nonempty String.[] n h = absurd (omega arith)
nonempty (String.◌∷◌ c s) n h = ground (arith, cons-nil c s)

started :
    (env : TraceEnv) (path value service_name scope_name : String) (parts : TraceparentParts)
    → (path == "/metrics") ≡ false
    → parse_traceparent value ≡ some parts
    → (parts.trace_id == "") ≡ false
    → (env.new_span_id == "") ≡ false
    → (parts.parent_span_id == "") ≡ false
    → traceparent (start_server_trace env path value service_name scope_name)
      ≡ header parts.trace_id
          (if parts.sampled then env.new_span_id else parts.parent_span_id)
          (flags parts.sampled)
unfolding traceparent start_server_trace trace_from
started env path value service_name scope_name parts served read trace span parent = ground arith

propagated :
    (env : TraceEnv) (parts : TraceparentParts) (b : Bool)
    → IsContext parts
    → all_hex env.new_span_id ≡ true
    → byte_len env.new_span_id ≡ 16
    → let parent = if b then env.new_span_id else parts.parent_span_id in
      parse_traceparent (header parts.trace_id parent (flags b))
      ≡ some (record { trace_id = parts.trace_id; parent_span_id = parent; sampled = b })
propagated env parts true c hex long =
    parse-header parts.trace_id env.new_span_id c.trace_hex hex true c.trace_long long
propagated env parts false c hex long =
    parse-header parts.trace_id parts.parent_span_id c.trace_hex c.span_hex false c.trace_long
      c.span_long

-- For a request with a traceparent that is read, outside of /metrics, the traceparent that the
-- gateway sends upstream is read back with the same trace and the same sampled flag, and with the
-- gateway's span as the parent if the trace is sampled, and the old parent if it is not: where the
-- span that the gateway draws is 16 hexadecimal digits.
pub parse-traceparent :
    (env : TraceEnv) (path value service_name scope_name : String) (parts : TraceparentParts)
    → (path == "/metrics") ≡ false
    → parse_traceparent value ≡ some parts
    → all_hex env.new_span_id ≡ true
    → byte_len env.new_span_id ≡ 16
    → parse_traceparent (traceparent (start_server_trace env path value service_name scope_name))
      ≡ some (record {
        trace_id = parts.trace_id;
        parent_span_id = if parts.sampled then env.new_span_id else parts.parent_span_id;
        sampled = parts.sampled;
      })
parse-traceparent env path value service_name scope_name parts served read hex long =
    let c = parse-IsContext value parts read in
    ap parse_traceparent (
      started env path value service_name scope_name parts served read
        (nonempty parts.trace_id 31 c.trace_long) (nonempty env.new_span_id 15 long)
        (nonempty parts.parent_span_id 15 c.span_long))
    ∙ propagated env parts parts.sampled c hex long
