-- ===== src/Prelude/Pattern.antt =====
-- Regular expressions that are anchored at the start, as tests in continuation style: each piece
-- reads a prefix in every way it can and asks what follows about the rest.
use drasken_labs_communicati.Prelude.Lists.{length, all}
use drasken_labs_communicati.Prelude.Strings.{Text}
use drasken_labs_communicati.Prelude.Tests.{◌==◌}
use Prim.Native.Nat.{ℕ, zero, suc, ◌+◌, ◌≤◌}
use mathlib.Core.Path.{◌≡◌, refl}
use mathlib.Core.Bool.{Bool, true, false, ◌&&◌, ◌||◌}
use mathlib.Core.List.{[], ◌∷◌, ◌++◌}
use native.Mathlib.Omega.{arith}

-- The end, `$`.
unfoldable pub at_end : Text → Bool
at_end [] = true
at_end (c ∷ s) = false

-- A literal.
unfoldable pub literal : Text → (Text → Bool) → Text → Bool
literal [] k s = k s
literal (l ∷ ls) k [] = false
literal (l ∷ ls) k (c ∷ s) = l == c && literal ls k s

-- A class, `{min,min + extra}` times.
unfoldable pub repeat : (ℕ → Bool) → ℕ → ℕ → (Text → Bool) → Text → Bool
repeat p (suc m) e k [] = false
repeat p (suc m) e k (c ∷ s) = p c && repeat p m e k s
repeat p zero zero k s = k s
repeat p zero (suc e) k [] = k []
repeat p zero (suc e) k (c ∷ s) = k (c ∷ s) || p c && repeat p zero e k s

-- A class, `*`.
unfoldable pub star : (ℕ → Bool) → (Text → Bool) → Text → Bool
star p k [] = k []
star p k (c ∷ s) = k (c ∷ s) || p c && star p k s

pub literal-append : (l : Text) (k : Text → Bool) (s : Text) → literal l k (l ++ s) ≡ k s
unfolding literal
literal-append [] k s = refl
literal-append (c ∷ l) k s = ground (arith, literal-append l k s)

-- What starts with a literal does not start with another that differs in its first character.
pub literal-apart :
    (a b : ℕ) (l m : Text) (k j : Text → Bool) (s : Text)
    → (a == b) ≡ false
    → literal (a ∷ l) k s ≡ true
    → literal (b ∷ m) j s ≡ false
unfolding literal
literal-apart a b l m k j [] d h = refl
literal-apart a b l m k j (c ∷ s) d h = ground arith

pub repeat-append :
    (p : ℕ → Bool) (m e : ℕ) (k : Text → Bool) (s t : Text)
    → all p s ≡ true
    → m ≤ length s
    → length s ≤ m + e
    → k t ≡ true
    → repeat p m e k (s ++ t) ≡ true
unfolding repeat
repeat-append p (suc m) e k [] t h lo hi kt = absurd (omega arith)
repeat-append p (suc m) e k (c ∷ s) t h lo hi kt = ground (arith, repeat-append p m e k s t)
repeat-append p zero zero k [] t h lo hi kt = kt
repeat-append p zero zero k (c ∷ s) t h lo hi kt = absurd (omega arith)
repeat-append p zero (suc e) k [] [] h lo hi kt = kt
repeat-append p zero (suc e) k [] (c ∷ t) h lo hi kt = ground arith
repeat-append p zero (suc e) k (c ∷ s) t h lo hi kt = ground (arith, repeat-append p zero e k s t)

pub star-append :
    (p : ℕ → Bool) (k : Text → Bool) (s t : Text)
    → all p s ≡ true
    → k t ≡ true
    → star p k (s ++ t) ≡ true
unfolding star
star-append p k [] [] h kt = kt
star-append p k [] (c ∷ t) h kt = ground arith
star-append p k (c ∷ s) t h kt = ground (arith, star-append p k s t)
