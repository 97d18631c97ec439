-- ===== src/Prelude/Words.antt =====
-- `split` and `join`, and the joining of what is present.
use Prim.Native.Nat.{ℕ}
use mathlib.Core.List.{List, [], ◌∷◌, ◌++◌}
use mathlib.Core.Option.{Option, none, some}
use drasken_labs_communicati.Prelude.Tests.{◌==◌, if◌then◌else◌}
use drasken_labs_communicati.Prelude.Strings.{Text}

abbrev pub onto_first : ℕ → List Text → List Text
onto_first c [] = (c ∷ []) ∷ []
onto_first c (part ∷ parts) = (c ∷ part) ∷ parts

-- `split`, by one character.
unfoldable pub split : ℕ → Text → List Text
split sep [] = [] ∷ []
split sep (c ∷ s) = let rest = split sep s in if c == sep then [] ∷ rest else onto_first c rest

-- `join`.
unfoldable pub join : Text → List Text → Text
join sep [] = []
join sep (w ∷ []) = w
join sep (w ∷ v ∷ ws) = w ++ (sep ++ join sep (v ∷ ws))

-- `filter(Boolean)`, of strings that may be null or empty.
unfoldable pub present : List (Option Text) → List Text
present [] = []
present (none ∷ ws) = present ws
present (some [] ∷ ws) = present ws
present (some (c ∷ s) ∷ ws) = (c ∷ s) ∷ present ws

-- `a || null`.
abbrev pub or_null : Text → Option Text
or_null [] = none
or_null (c ∷ s) = some (c ∷ s)

-- `a ?? b`, of two that may be null.
abbrev pub or_else {ℓ} : {A : Type ℓ} → Option A → Option A → Option A
or_else none b = b
or_else (some a) b = some a

-- `a ?? b`.
abbrev pub or_value {ℓ} : {A : Type ℓ} → Option A → A → A
or_value none b = b
or_value (some a) b = a
