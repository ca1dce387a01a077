-- ===== src/Gateway/Headers.antt =====
-- The text of a traceparent, and its parts.
use Prim.Native.String
use Prim.Native.String.append
use Prim.Native.Char.{Char, code}
use are_foundation.Base.{
  ℕ, String, Bool, true, false, not, ◌&&◌, ◌≡◌, refl, ◌∙◌, ap, some, [], ◌∷◌, if◌then◌else◌, arith,
}
use are_foundation.Base.Text.{is_space, trim_left, trim_right, trim_space, byte_len, keep_char}
use are_foundation.Gateway.Tracing.{
  split, is_digit, all_hex, parse_uint8, parse_traceparent, header, with_flags,
}

-- A text without white space.
unfoldable no_space : String → Bool
unfolding is_space
no_space String.[] = true
no_space (String.◌∷◌ c s) = not (is_space (code c)) && no_space s

digit_no_space : (c : ℕ) → is_digit c ≡ true → is_space c ≡ false
unfolding is_space
digit_no_space c h = ground arith

no_space-hex : (s : String) → all_hex s ≡ true → no_space s ≡ true
unfolding all_hex no_space
no_space-hex String.[] h = refl
no_space-hex (String.◌∷◌ c s) h = ground (arith, no_space-hex s, digit_no_space (code c))

no_space-append :
    (a b : String) → no_space a ≡ true → no_space b ≡ true → no_space (String.◌++◌ a b) ≡ true
unfolding no_space
no_space-append String.[] b h k = rw (append.nil b) k
no_space-append (String.◌∷◌ c a) b h k =
    rw (append.cons c a b) (ground (arith, no_space-append a b))

no_space-tail : (c : Char) (s : String) → no_space (String.◌∷◌ c s) ≡ true → no_space s ≡ true
unfolding no_space
no_space-tail c s h = ground arith

trim_left-id : (s : String) → no_space s ≡ true → trim_left s ≡ s
unfolding trim_left no_space
trim_left-id String.[] h = refl
trim_left-id (String.◌∷◌ c s) h = ground arith

trim_right-cons :
    (c d : Char) (s : String)
    → trim_right (String.◌∷◌ d s) ≡ String.◌∷◌ d s
    → trim_right (String.◌∷◌ c (String.◌∷◌ d s)) ≡ String.◌∷◌ c (String.◌∷◌ d s)
unfolding trim_right
trim_right-cons c d s h = ap (keep_char c) h

trim_right-id : (s : String) → no_space s ≡ true → trim_right s ≡ s
unfolding trim_right no_space
trim_right-id String.[] h = refl
trim_right-id (String.◌∷◌ c String.[]) h = ground arith
trim_right-id (String.◌∷◌ c (String.◌∷◌ d s)) h =
    trim_right-cons c d s (trim_right-id (String.◌∷◌ d s) (no_space-tail c (String.◌∷◌ d s) h))

trim_space-id : (s : String) → no_space s ≡ true → trim_space s ≡ s
unfolding trim_space
trim_space-id s h = rw (trim_left-id s h, trim_right-id s h) refl

dash-append : (rest : String) → String.◌++◌ "-" rest ≡ String.◌∷◌ "-" rest
dash-append rest = append.cons "-" String.[] rest ∙ ap (String.◌∷◌ "-") (append.nil rest)

-- A hexadecimal text before a dash is one part.
split-dash :
    (a rest : String)
    → all_hex a ≡ true
    → split b'-' (String.◌++◌ a (String.◌∷◌ "-" rest)) ≡ a ∷ split b'-' rest
unfolding split all_hex
split-dash String.[] rest h = rw (append.nil (String.◌∷◌ "-" rest)) refl
split-dash (String.◌∷◌ c a) rest h =
    let tail = split-dash a rest (ground arith) in
    rw (append.cons c a (String.◌∷◌ "-" rest)) (ground arith)

split-hex : (a : String) → all_hex a ≡ true → split b'-' a ≡ a ∷ []
unfolding split all_hex
split-hex String.[] h = refl
split-hex (String.◌∷◌ c a) h = ground (arith, split-hex a)

abbrev pub flags : Bool → String
flags sampled = if sampled then "01" else "00"

version-append :
    (rest : String) → String.◌++◌ "00-" rest ≡ String.◌∷◌ "0" (String.◌∷◌ "0" (String.◌∷◌ "-" rest))
version-append rest =
    append.cons "0" "0-" rest
    ∙ ap (String.◌∷◌ "0") (append.cons "0" "-" rest ∙ ap (String.◌∷◌ "0") (dash-append rest))

split-version :
    (rest : String)
    → split b'-' (String.◌∷◌ "0" (String.◌∷◌ "0" (String.◌∷◌ "-" rest))) ≡ "00" ∷ split b'-' rest
unfolding split
split-version rest = refl

flags-hex : (b : Bool) → all_hex (flags b) ≡ true
unfolding all_hex
flags-hex true = refl
flags-hex false = refl

-- A header as its characters.
header_text :
    (trace_id span_id last : String)
    → header trace_id span_id last
      ≡ String.◌∷◌ "0" (
          String.◌∷◌ "0" (
            String.◌∷◌ "-"
              (String.◌++◌ trace_id (String.◌∷◌ "-" (String.◌++◌ span_id (String.◌∷◌ "-" last))))))
unfolding header
header_text trace_id span_id last =
    version-append
      (String.◌++◌ trace_id (String.◌++◌ "-" (String.◌++◌ span_id (String.◌++◌ "-" last))))
    ∙ rw (dash-append last) (rw (dash-append (String.◌++◌ span_id (String.◌∷◌ "-" last))) refl)

no_space-dash : (s : String) → no_space s ≡ true → no_space (String.◌∷◌ "-" s) ≡ true
unfolding no_space
no_space-dash s h = h

no_space-version :
    (s : String)
    → no_space s ≡ true
    → no_space (String.◌∷◌ "0" (String.◌∷◌ "0" (String.◌∷◌ "-" s))) ≡ true
unfolding no_space
no_space-version s h = h

flags_read :
    (trace_id span_id : String) (b : Bool)
    → with_flags trace_id span_id (parse_uint8 (flags b))
      ≡ some (record { trace_id = trace_id; parent_span_id = span_id; sampled = b })
unfolding parse_uint8
flags_read trace_id span_id true = refl
flags_read trace_id span_id false = refl

module _ (trace_id span_id : String) (t : all_hex trace_id ≡ true)
    (s : all_hex span_id ≡ true) where
  header-no_space : (b : Bool) → no_space (header trace_id span_id (flags b)) ≡ true
  header-no_space b =
      let last = no_space-dash (flags b) (no_space-hex (flags b) (flags-hex b)) in
      let span = no_space-append span_id (String.◌∷◌ "-" (flags b)) (no_space-hex span_id s) last in
      let trace =
        no_space-append trace_id _ (no_space-hex trace_id t)
          (no_space-dash (String.◌++◌ span_id (String.◌∷◌ "-" (flags b))) span) in
      rw (header_text trace_id span_id (flags b)) (no_space-version _ trace)

  header_parts :
      (b : Bool)
      → split b'-' (header trace_id span_id (flags b)) ≡ "00" ∷ trace_id ∷ span_id ∷ flags b ∷ []
  header_parts b =
      let rest = String.◌++◌ span_id (String.◌∷◌ "-" (flags b)) in
      ap (split b'-') (header_text trace_id span_id (flags b))
      ∙ split-version (String.◌++◌ trace_id (String.◌∷◌ "-" rest))
      ∙ ap (λ l. "00" ∷ l)
          (split-dash trace_id rest t
            ∙ ap (λ l. trace_id ∷ l)
                (split-dash span_id (flags b) s
                  ∙ ap (λ l. span_id ∷ l) (split-hex (flags b) (flags-hex b))))

  -- What is printed is read back.
  pub parse-header :
      (b : Bool)
      → byte_len trace_id ≡ 32
      → byte_len span_id ≡ 16
      → parse_traceparent (header trace_id span_id (flags b))
        ≡ some (record { trace_id = trace_id; parent_span_id = span_id; sampled = b })
  unfolding parse_traceparent
  parse-header b long short =
      rw (trim_space-id _ (header-no_space b), header_parts b)
        (ground (arith, flags_read trace_id span_id b))
