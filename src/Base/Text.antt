-- ===== src/Base/Text.antt =====
-- The functions of Go's `strings` that the program calls. A text is a list of code points: a Go
-- string that is no UTF-8 has no counterpart here.
use are_foundation.Base.Tests.{ltb, leb, eqb, if◌then◌else◌}
use Prim.Native.Nat.{ℕ, ◌+◌}
use Prim.Native.Char.{Char, code}
use Prim.Native.String.{String, [], ◌∷◌}
use mathlib.Core.Bool.{Bool, true, false, ◌&&◌, ◌||◌}
use text.Mathlib.Text.{◌==◌}

-- unicode.IsSpace
unfoldable pub is_space : ℕ → Bool
is_space c =
    (leb 9 c && leb c 13)
    || eqb c 32
    || eqb c 0x85
    || eqb c 0xa0
    || eqb c 0x1680
    || (leb 0x2000 c && leb c 0x200a)
    || eqb c 0x2028
    || eqb c 0x2029
    || eqb c 0x202f
    || eqb c 0x205f
    || eqb c 0x3000

unfoldable pub trim_left : String → String
unfolding is_space
trim_left [] = []
trim_left (c ∷ s) = let rest = trim_left s in if is_space (code c) then rest else c ∷ s

abbrev pub keep_char : Char → String → String
keep_char c [] = if is_space (code c) then [] else c ∷ []
keep_char c (d ∷ s) = c ∷ d ∷ s

unfoldable pub trim_right : String → String
unfolding is_space
trim_right [] = []
trim_right (c ∷ s) = keep_char c (trim_right s)

-- strings.TrimSpace
unfoldable pub trim_space : String → String
unfolding trim_left trim_right
trim_space s = trim_right (trim_left s)

abbrev keep_slash : Char → String → String
keep_slash c [] = if eqb (code c) 0x2f then [] else c ∷ []
keep_slash c (d ∷ s) = c ∷ d ∷ s

-- `strings.TrimRight(s, "/")`
unfoldable pub trim_slashes : String → String
trim_slashes [] = []
trim_slashes (c ∷ s) = keep_slash c (trim_slashes s)

-- strings.HasPrefix
unfoldable pub has_prefix : String → String → Bool
has_prefix s [] = true
has_prefix [] (p ∷ ps) = false
has_prefix (c ∷ s) (p ∷ ps) = eqb (code c) (code p) && has_prefix s ps

abbrev drop_like : String → String → String
drop_like s [] = s
drop_like [] (p ∷ ps) = []
drop_like (c ∷ s) (p ∷ ps) = drop_like s ps

-- strings.TrimPrefix
unfoldable pub trim_prefix : String → String → String
unfolding has_prefix
trim_prefix s p = if has_prefix s p then drop_like s p else s

-- strings.HasSuffix
unfoldable pub has_suffix : String → String → Bool
has_suffix [] p = p == []
has_suffix (c ∷ s) p = (c ∷ s) == p || has_suffix s p

unfoldable pub cut_suffix : String → String → String
cut_suffix [] p = []
cut_suffix (c ∷ s) p = if (c ∷ s) == p then [] else c ∷ cut_suffix s p

-- strings.TrimSuffix
unfoldable pub trim_suffix : String → String → String
unfolding has_suffix cut_suffix
trim_suffix s p = if has_suffix s p then cut_suffix s p else s

-- strings.Contains
unfoldable pub contains : String → String → Bool
unfolding has_prefix
contains [] p = p == []
contains (c ∷ s) p = has_prefix (c ∷ s) p || contains s p

-- The bytes of the UTF-8 form of a code point.
abbrev utf8_len : ℕ → ℕ
utf8_len c = if ltb c 0x80 then 1 else if ltb c 0x800 then 2 else if ltb c 0x10000 then 3 else 4

-- len(s), in bytes
unfoldable pub byte_len : String → ℕ
byte_len [] = 0
byte_len (c ∷ s) = utf8_len (code c) + byte_len s
