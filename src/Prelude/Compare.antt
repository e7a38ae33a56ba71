-- ===== src/Prelude/Compare.antt =====
-- Package strings' searches, and the order of texts.
use Prim.Native.Char.{code}
use Prim.Native.String.{String, ◌++◌}
use mathlib.Core.Path.{◌≡◌, refl}
use mathlib.Core.Bool.{Bool, true, false, ◌&&◌, ◌||◌}
use mathlib.Core.List.{List, [], ◌∷◌}
use native.Mathlib.Omega.{arith}
use visto_easy.Prelude.Tests.{ltb}
use visto_easy.Prelude.Text.{eqb}

-- `strings.HasPrefix(s, prefix)`, with the prefix first.
unfoldable has_prefix : String → String → Bool
has_prefix String.[] s = true
has_prefix (String.◌∷◌ c p) String.[] = false
has_prefix (String.◌∷◌ c p) (String.◌∷◌ d s) = eqb (code c) (code d) && has_prefix p s

-- `strings.Contains(s, substr)`
unfoldable pub contains : String → String → Bool
unfolding has_prefix
contains String.[] sub = has_prefix sub ""
contains (String.◌∷◌ c s) sub = has_prefix sub (String.◌∷◌ c s) || contains s sub

-- `strings.Join(elems, "|")`
unfoldable pub join_bars : List String → String
join_bars [] = ""
join_bars (s ∷ []) = s
join_bars (s ∷ t ∷ ss) = s ++ "|" ++ join_bars (t ∷ ss)

-- `a < b` on strings: the order of the bytes of UTF-8 is that of the code points.
unfoldable pub text_ltb : String → String → Bool
text_ltb s String.[] = false
text_ltb String.[] (String.◌∷◌ d t) = true
text_ltb (String.◌∷◌ c s) (String.◌∷◌ d t) =
    ltb (code c) (code d) || eqb (code c) (code d) && text_ltb s t

pub text_ltb_asym : (s t : String) → text_ltb s t ≡ true → text_ltb t s ≡ false
unfolding text_ltb
text_ltb_asym s String.[] h = absurd (ground arith)
text_ltb_asym String.[] (String.◌∷◌ d t) h = refl
text_ltb_asym (String.◌∷◌ c s) (String.◌∷◌ d t) h = ground (arith, text_ltb_asym s t)

-- If t is not before s, and u not before t, then u is not before s.
pub text_ltb_trans :
    (s t u : String) → text_ltb t s ≡ false → text_ltb u t ≡ false → text_ltb u s ≡ false
unfolding text_ltb
text_ltb_trans String.[] t u h k = refl
text_ltb_trans (String.◌∷◌ c s) String.[] u h k = absurd (ground arith)
text_ltb_trans (String.◌∷◌ c s) (String.◌∷◌ d t) String.[] h k = absurd (ground arith)
text_ltb_trans (String.◌∷◌ c s) (String.◌∷◌ d t) (String.◌∷◌ x u) h k =
    ground (arith, text_ltb_trans s t u)
