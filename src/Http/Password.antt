-- ===== src/Http/Password.antt =====
-- internal/httpapi/server.go: validateStrongPassword, the policy for new passwords.
use Prim.Native.Char.{code}
use visto_easy.Prelude.{
  ℕ, Bool, false, not, ◌&&◌, ◌||◌, String, Option, none, some, if◌then◌else◌, leb, ltb, byte_length,
}

-- `re.MatchString(value)` for a pattern of one character, a class that is given as a test.
unfoldable pub has : (ℕ → Bool) → String → Bool
has p String.[] = false
has p (String.◌∷◌ c s) = p (code c) || has p s

-- `[a-z]`, `[A-Z]`, `\d` and `[^A-Za-z0-9]`
abbrev is_lower : ℕ → Bool
is_lower c = leb b'a' c && leb c b'z'

abbrev is_upper : ℕ → Bool
is_upper c = leb b'A' c && leb c b'Z'

abbrev is_digit : ℕ → Bool
is_digit c = leb b'0' c && leb c b'9'

abbrev is_special : ℕ → Bool
is_special c = not (is_upper c || is_lower c || is_digit c)

-- None for `true, ""`, and the message for a password that is refused.
unfoldable pub validate_strong_password : String → Option String
unfolding has
validate_strong_password value =
    if ltb (byte_length value) 10
    then some "password troppo corta: minimo 10 caratteri"
    else if ltb 128 (byte_length value)
    then some "password troppo lunga: massimo 128 caratteri"
    else if not (has is_lower value)
    then some "password non valida: aggiungi almeno una lettera minuscola"
    else if not (has is_upper value)
    then some "password non valida: aggiungi almeno una lettera maiuscola"
    else if not (has is_digit value)
    then some "password non valida: aggiungi almeno un numero"
    else if not (has is_special value)
    then some "password non valida: aggiungi almeno un simbolo"
    else none
