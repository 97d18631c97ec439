-- ===== src/Prelude/OneOf.antt =====
-- A word among some words.
use drasken_labs_communicati.Prelude.{
  ◌≡◌, ◌⊎◌, sym, ap, ◌∙◌, Text, text_eq, text_eq_sound, text_eq_refl, true, List, [], ◌∷◌, any,
  arith, Bool-cases, inl, inr,
}

abbrev pub IsOneOf : Text → List Text → Type 0
IsOneOf w [] = ⊥
IsOneOf w (v ∷ vs) = (v ≡ w) ⊎ IsOneOf w vs

pub any-IsOneOf : (w : Text) (vs : List Text) → any (λ v. text_eq v w) vs ≡ true → IsOneOf w vs
any-IsOneOf w [] h = cc
any-IsOneOf w (v ∷ vs) h = elim (Bool-cases (text_eq v w)) [
  | inl same ↦ inl (text_eq_sound v w same)
  | inr other ↦ inr (any-IsOneOf w vs (ground arith))
]

pub IsOneOf-any : (w : Text) (vs : List Text) → IsOneOf w vs → any (λ v. text_eq v w) vs ≡ true
IsOneOf-any w [] h = absurd h
IsOneOf-any w (v ∷ vs) (inl same) =
    let hit : text_eq v w ≡ true = ap (text_eq v) (sym same) ∙ text_eq_refl v in ground arith
IsOneOf-any w (v ∷ vs) (inr later) = let rest = IsOneOf-any w vs later in ground arith
