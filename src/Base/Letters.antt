-- ===== src/Base/Letters.antt =====
-- The case mappings of Go's `strings`.
use are_foundation.Base.Tests.{eqb, if◌then◌else◌}
use Prim.Native.Nat.{ℕ}
use Prim.Native.Char.{Char, code}
use Prim.Native.String.{String}
use mathlib.Core.List.{List, [], ◌∷◌}

-- Runes with their image. Only the runes whose image is ASCII are listed: the others keep their
-- value here, and neither they nor their image equals a rune of the ASCII texts compared with.
abbrev CaseTable : Type 0
CaseTable = List (ℕ × Char)

abbrev upper_table : CaseTable
upper_table =
    (b'a', "A")
    ∷ (b'b', "B")
    ∷ (b'c', "C")
    ∷ (b'd', "D")
    ∷ (b'e', "E")
    ∷ (b'f', "F")
    ∷ (b'g', "G")
    ∷ (b'h', "H")
    ∷ (b'i', "I")
    ∷ (b'j', "J")
    ∷ (b'k', "K")
    ∷ (b'l', "L")
    ∷ (b'm', "M")
    ∷ (b'n', "N")
    ∷ (b'o', "O")
    ∷ (b'p', "P")
    ∷ (b'q', "Q")
    ∷ (b'r', "R")
    ∷ (b's', "S")
    ∷ (b't', "T")
    ∷ (b'u', "U")
    ∷ (b'v', "V")
    ∷ (b'w', "W")
    ∷ (b'x', "X")
    ∷ (b'y', "Y")
    ∷ (b'z', "Z")
    ∷ (0x131, "I")
    ∷ (0x17f, "S")
    ∷ []

abbrev lower_table : CaseTable
lower_table =
    (b'A', "a")
    ∷ (b'B', "b")
    ∷ (b'C', "c")
    ∷ (b'D', "d")
    ∷ (b'E', "e")
    ∷ (b'F', "f")
    ∷ (b'G', "g")
    ∷ (b'H', "h")
    ∷ (b'I', "i")
    ∷ (b'J', "j")
    ∷ (b'K', "k")
    ∷ (b'L', "l")
    ∷ (b'M', "m")
    ∷ (b'N', "n")
    ∷ (b'O', "o")
    ∷ (b'P', "p")
    ∷ (b'Q', "q")
    ∷ (b'R', "r")
    ∷ (b'S', "s")
    ∷ (b'T', "t")
    ∷ (b'U', "u")
    ∷ (b'V', "v")
    ∷ (b'W', "w")
    ∷ (b'X', "x")
    ∷ (b'Y', "y")
    ∷ (b'Z', "z")
    ∷ (0x130, "i")
    ∷ (0x212a, "k")
    ∷ []

map_char : CaseTable → Char → Char
map_char [] c = c
map_char ((n, d) ∷ t) c = if eqb n (code c) then d else map_char t c

map_text : CaseTable → String → String
unfolding map_char
map_text t String.[] = String.[]
map_text t (String.◌∷◌ c s) = String.◌∷◌ (map_char t c) (map_text t s)

-- strings.ToUpper
unfoldable pub to_upper : String → String
unfolding map_text
to_upper s = map_text upper_table s

-- strings.ToLower
unfoldable pub to_lower : String → String
unfolding map_text
to_lower s = map_text lower_table s
