-- ===== src/Prelude/Strings.antt =====
-- Text that the program walks: a list of UTF-16 code units, as JavaScript indexes a string.
use Prim.Native.Char.{code}
use Prim.Native.Nat.{ℕ}
use Prim.Native.String.{String}
use mathlib.Core.Path.{◌≡◌, refl}
use mathlib.Core.Logic.{◌↔◌}
use mathlib.Core.Bool.{Bool, true, false, not, ◌&&◌, ◌||◌}
use mathlib.Core.List.{List, [], ◌∷◌, ◌++◌}
use mathlib.Core.Option.{Option, none, some}
use native.Mathlib.Omega.{arith}
use drasken_labs_communicati.Prelude.Tests.{leb, ◌==◌}

abbrev pub Text : Type 0
Text = List ℕ

-- A literal, whose characters are all below the surrogates.
abbrev pub codes : String → Text
codes String.[] = []
codes (String.◌∷◌ c s) = code c ∷ codes s

-- `===` on strings.
unfoldable pub text_eq : Text → Text → Bool
text_eq [] [] = true
text_eq [] (d ∷ t) = false
text_eq (c ∷ s) [] = false
text_eq (c ∷ s) (d ∷ t) = c == d && text_eq s t

pub text_eq_refl : (s : Text) → text_eq s s ≡ true
unfolding text_eq
text_eq_refl [] = refl
text_eq_refl (c ∷ s) = ground (arith, text_eq_refl s)

pub text_eq_sound : (s t : Text) → text_eq s t ≡ true → s ≡ t
unfolding text_eq
text_eq_sound [] [] h = refl
text_eq_sound [] (d ∷ t) h = cc
text_eq_sound (c ∷ s) [] h = cc
text_eq_sound (c ∷ s) (d ∷ t) h = ground (arith, text_eq_sound s t)

pub text_eq_iff : (s t : Text) → (text_eq s t ≡ true) ↔ (s ≡ t)
text_eq_iff s t = (text_eq_sound s t, λ e. rw e (text_eq_refl t))

-- A string or `null`, tested for truth: the empty string is false too.
abbrev pub truthy : Option Text → Bool
truthy none = false
truthy (some []) = false
truthy (some (c ∷ s)) = true

-- The character classes [0-9], [A-Z] and [0-9A-Z].
abbrev pub is_digit : ℕ → Bool
is_digit c = leb b'0' c && leb c b'9'

abbrev pub is_upper : ℕ → Bool
is_upper c = leb b'A' c && leb c b'Z'

abbrev pub is_alnum : ℕ → Bool
is_alnum c = is_digit c || is_upper c

-- A text without a separator ends where the separator is first met.
abbrev pub has_no : ℕ → Text → Bool
has_no sep [] = true
has_no sep (c ∷ s) = not (c == sep) && has_no sep s

pub cut_at :
    (sep : ℕ) (s t u v : Text)
    → has_no sep s ≡ true
    → has_no sep t ≡ true
    → s ++ sep ∷ u ≡ t ++ sep ∷ v
    → (s ≡ t) × (u ≡ v)
cut_at sep [] [] u v h k e = ground arith
cut_at sep [] (d ∷ t) u v h k e = ground arith
cut_at sep (c ∷ s) [] u v h k e = ground arith
cut_at sep (c ∷ s) (d ∷ t) u v h k e = ground (arith, cut_at sep s t u v)
