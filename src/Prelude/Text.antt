-- ===== src/Prelude/Text.antt =====
-- The functions of Go's package strings that the program uses.
pub mod Trim
use Prim.Native.Nat.{ℕ, ◌+◌, ◌-◌}
use Prim.Native.Char.{Char, code}
use Prim.Native.String
use Prim.Native.String.{String}
use mathlib.Core.Path.{◌≡◌, refl}
use mathlib.Core.Bool.{Bool, true, false, ◌&&◌, ◌||◌}
use mathlib.Core.List.{List, [], ◌∷◌}
use visto_easy.Prelude.Tests.{leb, if◌then◌else◌}

abbrev pub eqb : ℕ → ℕ → Bool
eqb a b = leb a b && leb b a

-- `unicode.IsSpace`: the code points with the property White_Space.
unfoldable pub is_space : ℕ → Bool
is_space c =
    leb 9 c && leb c 13
    || eqb c 0x20
    || eqb c 0x85
    || eqb c 0xA0
    || eqb c 0x1680
    || leb 0x2000 c && leb c 0x200A
    || eqb c 0x2028
    || eqb c 0x2029
    || eqb c 0x202F
    || eqb c 0x205F
    || eqb c 0x3000

unfoldable pub trim_left : String → String
trim_left String.[] = ""
trim_left (String.◌∷◌ c s) =
    let rest = trim_left s in if is_space (code c) then rest else String.◌∷◌ c s

-- A blank is kept in front of a text that is not empty.
unfoldable pub keep_unless_blank : Char → String → String
keep_unless_blank c String.[] = if is_space (code c) then "" else String.◌∷◌ c ""
keep_unless_blank c (String.◌∷◌ d s) = String.◌∷◌ c (String.◌∷◌ d s)

unfoldable pub trim_right : String → String
unfolding keep_unless_blank
trim_right String.[] = ""
trim_right (String.◌∷◌ c s) = keep_unless_blank c (trim_right s)

-- `strings.TrimSpace`
unfoldable pub trim_space : String → String
unfolding trim_left trim_right is_space
trim_space s = trim_right (trim_left s)

lower_char : Char → Char
lower_char c =
    if leb b'A' (code c) && leb (code c) b'Z'
    then String.char_at "abcdefghijklmnopqrstuvwxyz" (code c - b'A')
    else c

-- `strings.ToLower` on the letters of ASCII; other letters are left as they are.
unfoldable pub to_lower : String → String
unfolding lower_char
to_lower String.[] = ""
to_lower (String.◌∷◌ c s) = String.◌∷◌ (lower_char c) (to_lower s)

-- Go's `len` of a string: the number of its bytes in UTF-8.
unfoldable pub byte_length : String → ℕ
byte_length String.[] = 0
byte_length (String.◌∷◌ c s) =
    (if leb (code c) 0x7F
      then 1
      else if leb (code c) 0x7FF
      then 2
      else if leb (code c) 0xFFFF
      then 3
      else 4)
    + byte_length s

trim_test : trim_space " \t ab c\n " ≡ "ab c"
unfolding trim_space
trim_test = refl

lower_test : to_lower "Anna.ADMIN@X" ≡ "anna.admin@x"
unfolding to_lower
lower_test = refl
