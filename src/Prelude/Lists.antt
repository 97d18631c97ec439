-- ===== src/Prelude/Lists.antt =====
-- Lists measured, indexed and tested by native numbers and Booleans, under the library's names.
use Prim.Native.Nat.{ℕ, zero, suc, ◌+◌, ◌≤◌, ◌<◌}
use mathlib.Core.Path.{◌≡◌, refl, ap}
use mathlib.Core.Bool.{Bool, true, false, ◌&&◌, ◌||◌}
use mathlib.Core.List.{List, [], ◌∷◌, ◌++◌}
use mathlib.Core.Option.{Option, none, some}
use native.Mathlib.Omega.{arith}

module _ {ℓ} {A : Type ℓ} where
  abbrev pub length : List A → ℕ
  length [] = 0
  length (x ∷ xs) = suc (length xs)

  abbrev pub get_elem? : List A → ℕ → Option A
  get_elem? [] i = none
  get_elem? (x ∷ xs) zero = some x
  get_elem? (x ∷ xs) (suc i) = get_elem? xs i

  abbrev pub take : ℕ → List A → List A
  take zero xs = []
  take (suc n) [] = []
  take (suc n) (x ∷ xs) = x ∷ take n xs

  abbrev pub drop : ℕ → List A → List A
  drop zero xs = xs
  drop (suc n) [] = []
  drop (suc n) (x ∷ xs) = drop n xs

  abbrev pub all : (A → Bool) → List A → Bool
  all p [] = true
  all p (x ∷ xs) = p x && all p xs

  abbrev pub any : (A → Bool) → List A → Bool
  any p [] = false
  any p (x ∷ xs) = p x || any p xs

  pub length-append : (xs ys : List A) → length (xs ++ ys) ≡ length xs + length ys
  length-append [] ys = omega arith
  length-append (x ∷ xs) ys = omega (arith, length-append xs ys)

  -- An element that is read stands within the list.
  pub get_elem?-lt-length : (xs : List A) (i : ℕ) {x : A} → get_elem? xs i ≡ some x → i < length xs
  get_elem?-lt-length [] i h = cc
  get_elem?-lt-length (x ∷ xs) zero h = omega arith
  get_elem?-lt-length (x ∷ xs) (suc i) h = omega (arith, get_elem?-lt-length xs i h)

module _ {ℓ} {A : Type ℓ} where
  -- Within the list there is an element.
  pub get_elem?_of_lt : (xs : List A) (i : ℕ) → i < length xs → (x : A) × (get_elem? xs i ≡ some x)
  get_elem?_of_lt [] i h = absurd (omega arith)
  get_elem?_of_lt (x ∷ xs) zero h = (x, refl)
  get_elem?_of_lt (x ∷ xs) (suc i) h = get_elem?_of_lt xs i (omega arith)

  pub take-append :
      (n : ℕ) (p t : List A) (k : ℕ) → n ≡ length p + k → take n (p ++ t) ≡ p ++ take k t
  take-append n [] t k e = let same : n ≡ k = omega arith in rw same
  take-append zero (x ∷ p) t k e = absurd (omega arith)
  take-append (suc n) (x ∷ p) t k e = ap (◌∷◌ x) (take-append n p t k (omega arith))

  pub get_elem?-append :
      (n : ℕ) (p t : List A) (k : ℕ) → n ≡ length p + k → get_elem? (p ++ t) n ≡ get_elem? t k
  get_elem?-append n [] t k e = let same : n ≡ k = omega arith in rw same
  get_elem?-append zero (x ∷ p) t k e = absurd (omega arith)
  get_elem?-append (suc n) (x ∷ p) t k e = get_elem?-append n p t k (omega arith)

  pub take_of_le : (n : ℕ) (p t : List A) → n ≤ length p → take n (p ++ t) ≡ take n p
  take_of_le zero p t h = refl
  take_of_le (suc n) [] t h = absurd (omega arith)
  take_of_le (suc n) (x ∷ p) t h = ap (◌∷◌ x) (take_of_le n p t (omega arith))

module _ {ℓ κ} {A : Type ℓ} where
  abbrev pub All : (A → Type κ) → List A → Type κ
  All P [] = Unit
  All P (x ∷ xs) = P x × All P xs

-- A finite check: whether a test passes at each number under a bound.
unfoldable pub passes_under : (ℕ → Bool) → ℕ → Bool
passes_under test zero = true
passes_under test (suc n) = passes_under test n && test n

pub passes_under_at :
    (test : ℕ → Bool) (bound i : ℕ) → i < bound → passes_under test bound ≡ true → test i ≡ true
unfolding passes_under
passes_under_at test zero i below table = absurd (omega arith)
passes_under_at test (suc n) i below table = ground (arith, passes_under_at test n i)
