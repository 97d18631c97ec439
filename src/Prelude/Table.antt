-- ===== src/Prelude/Table.antt =====
-- A database table as a list of rows, each under a numeric key.
use Prim.Native.Nat.{ℕ}
use mathlib.Core.Path.{◌≡◌, refl, subst}
use mathlib.Core.Logic.{inl, inr}
use mathlib.Core.List.{List, [], ◌∷◌}
use mathlib.Core.Bool.{Bool, true, false}
use mathlib.Core.Option
use mathlib.Core.Option.{Option, none, some}
use native.Mathlib.Omega.{arith}
use drasken_labs_communicati.Prelude.Tests.{◌==◌, Bool-cases, if◌then◌else◌}
use drasken_labs_communicati.Prelude.Lists.{All}

module _ {ℓ} {A : Type ℓ} (key : A → ℕ) where
  -- `findUnique`.
  unfoldable pub find_row : ℕ → List A → Option A
  find_row k [] = none
  find_row k (a ∷ rows) = if key a == k then some a else find_row k rows

  -- `update`, of the row under a key.
  unfoldable pub update_row : ℕ → (A → A) → List A → List A
  update_row k f [] = []
  update_row k f (a ∷ rows) = if key a == k then f a ∷ rows else a ∷ update_row k f rows

  -- A row that is found has the key.
  pub find_row-key : (k : ℕ) (rows : List A) (a : A) → find_row k rows ≡ some a → key a ≡ k
  unfolding find_row
  find_row-key k [] a h = cc
  find_row-key k (b ∷ rows) a h = ground (arith, find_row-key k rows a)

  -- What an update that keeps the keys does to a look-up.
  pub find_row-update_row :
      (k j : ℕ) (f : A → A) (rows : List A)
      → ((a : A) → key (f a) ≡ key a)
      → find_row j (update_row k f rows)
        ≡ (if k == j then Option.map f (find_row j rows) else find_row j rows)
  unfolding find_row update_row
  find_row-update_row k j f [] h = ground arith
  find_row-update_row k j f (a ∷ rows) h = ground (arith, h a, find_row-update_row k j f rows h)

  -- A property of all rows is kept if the row that is found keeps it.
  pub update_row-All {κ} :
      (P : A → Type κ) (k : ℕ) (f : A → A) (rows : List A)
      → ((a : A) → find_row k rows ≡ some a → P (f a))
      → All P rows
      → All P (update_row k f rows)
  unfolding update_row find_row
  update_row-All P k f [] h a = tt
  update_row-All P k f (x ∷ rows) h (p, ps) = elim (Bool-cases (key x == k)) [
    | inl hit ↦ rw hit (h x (rw hit), ps)
    | inr miss ↦ rw miss (p, update_row-All P k f rows (λ a e. h a (rw miss e)) ps)
  ]

  pub find_row-All {κ} :
      (P : A → Type κ) (k : ℕ) (rows : List A) (a : A) → All P rows → find_row k rows ≡ some a → P a
  unfolding find_row
  find_row-All P k [] a h e = cc
  find_row-All P k (x ∷ rows) a (p, ps) e = elim (Bool-cases (key x == k)) [
    | inl hit ↦ let same : x ≡ a = ground arith in subst P same p
    | inr miss ↦ find_row-All P k rows a ps (ground arith)
  ]

module _ {ℓ} {A : Type ℓ} where
  -- `findUnique` and `update` of the row that a test picks, for keys that are texts.
  unfoldable pub find_first : (A → Bool) → List A → Option A
  find_first p [] = none
  find_first p (a ∷ rows) = if p a then some a else find_first p rows

  unfoldable pub update_first : (A → Bool) → (A → A) → List A → List A
  update_first p f [] = []
  update_first p f (a ∷ rows) = if p a then f a ∷ rows else a ∷ update_first p f rows

  -- An update shows where the same rows are looked up, if it leaves the test alone,
  pub find_first-update_first :
      (p : A → Bool) (f : A → A) (rows : List A)
      → ((a : A) → p (f a) ≡ p a)
      → find_first p (update_first p f rows) ≡ Option.map f (find_first p rows)
  unfolding find_first update_first
  find_first-update_first p f [] h = refl
  find_first-update_first p f (a ∷ rows) h = ground (arith, h a, find_first-update_first p f rows h)

  -- and nowhere else.
  pub find_first-update_other :
      (p q : A → Bool) (f : A → A) (rows : List A)
      → ((a : A) → p a ≡ true → (q a ≡ false) × (q (f a) ≡ false))
      → find_first q (update_first p f rows) ≡ find_first q rows
  unfolding find_first update_first
  find_first-update_other p q f [] h = refl
  find_first-update_other p q f (a ∷ rows) h =
      ground (arith, h a, find_first-update_other p q f rows h)

  pub find_first-holds :
      (p : A → Bool) (rows : List A) (a : A) → find_first p rows ≡ some a → p a ≡ true
  unfolding find_first
  find_first-holds p [] a h = cc
  find_first-holds p (b ∷ rows) a h = ground (arith, find_first-holds p rows a)

  -- `upsert` of the row that a test picks.
  unfoldable pub upsert_first : (A → Bool) → A → (A → A) → List A → List A
  upsert_first p new f [] = new ∷ []
  upsert_first p new f (a ∷ rows) = if p a then f a ∷ rows else a ∷ upsert_first p new f rows

  abbrev pub upserted : A → (A → A) → Option A → A
  upserted new f none = new
  upserted new f (some a) = f a

  pub find_first-upsert_first :
      (p : A → Bool) (new : A) (f : A → A) (rows : List A)
      → p new ≡ true
      → ((a : A) → p (f a) ≡ p a)
      → find_first p (upsert_first p new f rows) ≡ some (upserted new f (find_first p rows))
  unfolding find_first upsert_first
  find_first-upsert_first p new f [] h k = ground arith
  find_first-upsert_first p new f (a ∷ rows) h k =
      ground (arith, k a, find_first-upsert_first p new f rows h k)

  pub find_first-upsert_other :
      (p q : A → Bool) (new : A) (f : A → A) (rows : List A)
      → q new ≡ false
      → ((a : A) → p a ≡ true → (q a ≡ false) × (q (f a) ≡ false))
      → find_first q (upsert_first p new f rows) ≡ find_first q rows
  unfolding find_first upsert_first
  find_first-upsert_other p q new f [] h k = ground arith
  find_first-upsert_other p q new f (a ∷ rows) h k =
      ground (arith, k a, find_first-upsert_other p q new f rows h k)

  -- A property of all rows holds of the row that is found.
  pub find_first-All {κ} :
      (P : A → Type κ) (p : A → Bool) (rows : List A) (a : A)
      → All P rows
      → find_first p rows ≡ some a
      → P a
  unfolding find_first
  find_first-All P p [] a h e = cc
  find_first-All P p (x ∷ rows) a (h, hs) e = elim (Bool-cases (p x)) [
    | inl hit ↦ let same : x ≡ a = ground arith in subst P same h
    | inr miss ↦ find_first-All P p rows a hs (ground arith)
  ]
