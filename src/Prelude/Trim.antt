-- ===== src/Prelude/Trim.antt =====
-- `String.prototype.trim`: the characters that ECMAScript calls white space or line terminators.
use Prim.Native.Nat.{ℕ}
use mathlib.Core.Bool.{Bool, ◌&&◌, ◌||◌}
use mathlib.Core.List.{[], ◌∷◌, reverse}
use drasken_labs_communicati.Prelude.Tests.{leb, ◌==◌, if◌then◌else◌}
use drasken_labs_communicati.Prelude.Strings.{Text}

-- Tab to carriage return, space, no-break space, and the Unicode spaces.
unfoldable pub is_space : ℕ → Bool
is_space c =
    (leb 9 c && leb c 13)
    || c == 32
    || c == 160
    || c == 5760
    || (leb 8192 c && leb c 8202)
    || c == 8232
    || c == 8233
    || c == 8239
    || c == 8287
    || c == 12288
    || c == 65279

unfoldable pub trim_start : Text → Text
trim_start [] = []
trim_start (c ∷ s) = if is_space c then trim_start s else c ∷ s

unfoldable pub trim : Text → Text
unfolding trim_start
trim s = reverse (trim_start (reverse (trim_start s)))
