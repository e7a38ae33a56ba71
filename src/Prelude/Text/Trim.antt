-- ===== src/Prelude/Text/Trim.antt =====
-- What `strings.TrimSpace` leaves: nothing exactly when the text has only blanks, and nothing
-- more to trim.
use Prim.Native.Char.{code, Char}
use Prim.Native.String.{String, ◌++◌}
use Prim.Native.String.append
use mathlib.Core.Path.{◌≡◌, refl, sym, ap, ◌∙◌}
use mathlib.Core.Logic.{inl, inr, ◌≢◌}
use mathlib.Core.Bool.{Bool, true, false, not, ◌||◌, false≢true}
use native.Mathlib.Omega.{arith}
use visto_easy.Prelude.Tests.{Bool-cases}
use visto_easy.Prelude.Text.{is_space, trim_left, trim_right, trim_space, keep_unless_blank}

-- Some character of the text is not a blank.
unfoldable pub has_ink : String → Bool
has_ink String.[] = false
has_ink (String.◌∷◌ c s) = not (is_space (code c)) || has_ink s

has_ink-trim_left : (s : String) → has_ink (trim_left s) ≡ has_ink s
unfolding has_ink trim_left
has_ink-trim_left String.[] = refl
has_ink-trim_left (String.◌∷◌ c s) = ground (arith, has_ink-trim_left s)

has_ink-keep_unless_blank :
    (c : Char) (s : String)
    → has_ink (keep_unless_blank c s) ≡ (not (is_space (code c)) || has_ink s)
unfolding has_ink keep_unless_blank
has_ink-keep_unless_blank c String.[] = elim (Bool-cases (is_space (code c))) [
  | inl e ↦ rw e
  | inr e ↦ rw e (rw e)
]
has_ink-keep_unless_blank c (String.◌∷◌ d s) = refl

has_ink-trim_right : (s : String) → has_ink (trim_right s) ≡ has_ink s
unfolding has_ink trim_right
has_ink-trim_right String.[] = refl
has_ink-trim_right (String.◌∷◌ c s) =
    ground (arith, has_ink-trim_right s, has_ink-keep_unless_blank c (trim_right s))

has_ink-trim_space : (s : String) → has_ink (trim_space s) ≡ has_ink s
unfolding trim_space
has_ink-trim_space s = has_ink-trim_right (trim_left s) ∙ has_ink-trim_left s

trim_left-eq-empty : (s : String) → has_ink s ≡ false → trim_left s ≡ ""
unfolding has_ink trim_left
trim_left-eq-empty String.[] h = refl
trim_left-eq-empty (String.◌∷◌ c s) h = elim (Bool-cases (is_space (code c))) [
  | inl e ↦ rw e (trim_left-eq-empty s (ground arith))
  | inr e ↦ absurd (false≢true (ground arith))
]

-- A text trims to nothing exactly when it has no ink.
pub trim_space-ne-empty : (s : String) → has_ink s ≡ true → trim_space s ≢ ""
unfolding has_ink
trim_space-ne-empty s h e = absurd (false≢true (ap has_ink (sym e) ∙ (has_ink-trim_space s ∙ h)))

has_ink_of_trim_space : (s : String) → trim_space s ≢ "" → has_ink s ≡ true
unfolding trim_space trim_right
has_ink_of_trim_space s n = elim (Bool-cases (has_ink s)) [
  | inl h ↦ h
  | inr h ↦ absurd (n (ap trim_right (trim_left-eq-empty s h)))
]

pub has_ink-append : (s t : String) → has_ink (s ++ t) ≡ (has_ink s || has_ink t)
unfolding has_ink
has_ink-append String.[] t = rw append.nil
has_ink-append (String.◌∷◌ c s) t = rw append.cons (ground (arith, has_ink-append s t))

-- A second trim changes nothing of what the code asks of a text.
pub trim_space_twice-ne-empty : (s : String) → trim_space s ≢ "" → trim_space (trim_space s) ≢ ""
trim_space_twice-ne-empty s n =
    trim_space-ne-empty (trim_space s) (has_ink-trim_space s ∙ has_ink_of_trim_space s n)
