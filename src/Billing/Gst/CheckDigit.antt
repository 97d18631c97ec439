-- ===== src/Billing/Gst/CheckDigit.antt =====
-- The check digit of a GSTIN: what a changed character does to the sum.
use drasken_labs_communicati.Prelude.{
  ℕ, zero, suc, ◌+◌, ◌-◌, ◌%◌, ◌<◌, ◌≡◌, refl, ◌⊎◌, inl, inr, Text, Bool, true, false, none, some,
  [], ◌∷◌, ◌++◌, arith, get_elem?, get_elem?-lt-length, Option-cases, passes_under, passes_under_at,
  ◌==◌,
}
use drasken_labs_communicati.Billing.Gst.{alphabet, index_of, fold_digit, check_sum, char_at}

pub char_at_lem : (s : Text) (i c : ℕ) → get_elem? s i ≡ some c → char_at s i ≡ c ∷ []
char_at_lem s i c h = ground arith

pub get_elem?-index_of : (c : ℕ) (s : Text) (i : ℕ) → index_of c s ≡ some i → get_elem? s i ≡ some c
unfolding index_of
get_elem?-index_of c [] i h = cc
get_elem?-index_of c (x ∷ xs) zero h = ground arith
get_elem?-index_of c (x ∷ xs) (suc i) h = ground (arith, get_elem?-index_of c xs i)

pub index_of-lt-36 : (c i : ℕ) → index_of c alphabet ≡ some i → i < 36
index_of-lt-36 c i h = get_elem?-lt-length alphabet i (get_elem?-index_of c alphabet i h)

pub index_of-injective :
    (c d i : ℕ) → index_of c alphabet ≡ some i → index_of d alphabet ≡ some i → c ≡ d
index_of-injective c d i h k =
    let p = get_elem?-index_of c alphabet i h in let q = get_elem?-index_of d alphabet i k in cc

-- Each step of the sum reads one character.
check_sum_cons :
    (i s : ℕ) (c : ℕ) (t : Text) (r : ℕ)
    → check_sum i s (c ∷ t) ≡ some r
    → (v : ℕ) × (index_of c alphabet ≡ some v) × (check_sum (i + 1) (s + fold_digit i v) t ≡ some r)
unfolding check_sum
check_sum_cons i s c t r h = elim (Option-cases (index_of c alphabet)) [
  | inl e ↦ let stop = rw (e, check_sum) at h in cc
  | inr (v, e) ↦ (v, e, rw (e, check_sum) at h)
]

-- Another start moves the sum by as much.
pub check_sum_shift :
    (i s s' : ℕ) (t : Text) (r r' : ℕ)
    → check_sum i s t ≡ some r
    → check_sum i s' t ≡ some r'
    → r + s' ≡ r' + s
unfolding check_sum
check_sum_shift i s s' [] r r' h k = ground arith
check_sum_shift i s s' (c ∷ t) r r' h k =
    let (v, e, h') = check_sum_cons i s c t r h in
    let (w, f, k') = check_sum_cons i s' c t r' k in
    let same : v ≡ w = cc in
    omega (
      arith,
      check_sum_shift (i + 1) (s + fold_digit i v) (s' + fold_digit i v) t r r' h' (rw same k'),
    )

fold_digit-injective :
    (i v w : ℕ) → v < 36 → w < 36 → fold_digit i v % 36 ≡ fold_digit i w % 36 → v ≡ w
unfolding fold_digit
fold_digit-injective i v w p q h = ground arith

-- Two texts that differ in one character have sums that differ modulo 36.
pub check_sum_substitute :
    (i s : ℕ) (p : Text) (x y : ℕ) (t : Text) (r r' : ℕ)
    → check_sum i s (p ++ x ∷ t) ≡ some r
    → check_sum i s (p ++ y ∷ t) ≡ some r'
    → r % 36 ≡ r' % 36
    → x ≡ y
check_sum_substitute i s [] x y t r r' h k e =
    let (v, ev, h') = check_sum_cons i s x t r h in
    let (w, ew, k') = check_sum_cons i s y t r' k in
    let moved = check_sum_shift (i + 1) (s + fold_digit i v) (s + fold_digit i w) t r r' h' k' in
    let same =
      fold_digit-injective i v w (index_of-lt-36 x v ev) (index_of-lt-36 y w ew) (omega arith) in
    index_of-injective x y v ev (rw same ew)
check_sum_substitute i s (c ∷ p) x y t r r' h k e =
    let (v, ev, h') = check_sum_cons i s c (p ++ x ∷ t) r h in
    let (w, ew, k') = check_sum_cons i s c (p ++ y ∷ t) r' k in
    let same : v ≡ w = cc in
    check_sum_substitute (i + 1) (s + fold_digit i v) p x y t r r' h' (rw same k') e

fold_digit_exchange :
    (i v w : ℕ)
    → v < 36
    → w < 36
    → (fold_digit i v + fold_digit (i + 1) w) % 36 ≡ (fold_digit i w + fold_digit (i + 1) v) % 36
    → (v ≡ w) ⊎ ((v ≡ 0) × (w ≡ 35) ⊎ (v ≡ 35) × (w ≡ 0))
unfolding fold_digit
fold_digit_exchange i v w p q h = ground arith

-- Two neighbours that are exchanged change the sum modulo 36, but for 0 and Z.
abbrev pub AreZeroAndZ : ℕ → ℕ → Type 0
AreZeroAndZ x y = (x ≡ b'0') × (y ≡ b'Z') ⊎ (x ≡ b'Z') × (y ≡ b'0')

named_by_value :
    (x y v w : ℕ)
    → index_of x alphabet ≡ some v
    → index_of y alphabet ≡ some w
    → (v ≡ w) ⊎ ((v ≡ 0) × (w ≡ 35) ⊎ (v ≡ 35) × (w ≡ 0))
    → (x ≡ y) ⊎ AreZeroAndZ x y
named_by_value x y v w ev ew (inl same) = inl (index_of-injective x y v ev (rw same ew))
named_by_value x y v w ev ew (inr (inl (p, q))) =
    let hx = get_elem?-index_of x alphabet 0 (rw p at ev) in
    let hy = get_elem?-index_of y alphabet 35 (rw q at ew) in inr (inl (ground arith, ground arith))
named_by_value x y v w ev ew (inr (inr (p, q))) =
    let hx = get_elem?-index_of x alphabet 35 (rw p at ev) in
    let hy = get_elem?-index_of y alphabet 0 (rw q at ew) in inr (inr (ground arith, ground arith))

pub check_sum_transpose :
    (i s : ℕ) (p : Text) (x y : ℕ) (t : Text) (r r' : ℕ)
    → check_sum i s (p ++ x ∷ y ∷ t) ≡ some r
    → check_sum i s (p ++ y ∷ x ∷ t) ≡ some r'
    → r % 36 ≡ r' % 36
    → (x ≡ y) ⊎ AreZeroAndZ x y
check_sum_transpose i s [] x y t r r' h k e =
    let (v, ev, h') = check_sum_cons i s x (y ∷ t) r h in
    let (w, ew, h'') = check_sum_cons (i + 1) (s + fold_digit i v) y t r h' in
    let (w', ew', k') = check_sum_cons i s y (x ∷ t) r' k in
    let (v', ev', k'') = check_sum_cons (i + 1) (s + fold_digit i w') x t r' k' in
    let same_v : v ≡ v' = cc in
    let same_w : w ≡ w' = cc in
    let moved =
      check_sum_shift (i + 1 + 1) (s + fold_digit i v + fold_digit (i + 1) w)
        (s + fold_digit i w + fold_digit (i + 1) v) t r r' h'' (rw (same_v, same_w) k'') in
    named_by_value x y v w ev ew
      (fold_digit_exchange i v w (index_of-lt-36 x v ev) (index_of-lt-36 y w ew) (omega arith))
check_sum_transpose i s (c ∷ p) x y t r r' h k e =
    let (v, ev, h') = check_sum_cons i s c (p ++ x ∷ y ∷ t) r h in
    let (w, ew, k') = check_sum_cons i s c (p ++ y ∷ x ∷ t) r' k in
    let same : v ≡ w = cc in
    check_sum_transpose (i + 1) (s + fold_digit i v) p x y t r r' h' (rw same k') e

-- The characters of the alphabet are all different.
found_at : ℕ → Bool
found_at n = elim (get_elem? alphabet n) [
  | none ↦ false
  | some c ↦ elim (index_of c alphabet) [ none ↦ false | some m ↦ m == n ]
]

found_at_table : passes_under found_at 36 ≡ true
unfolding passes_under found_at index_of
found_at_table = refl

index_of-get_elem? :
    (n c : ℕ) → n < 36 → get_elem? alphabet n ≡ some c → index_of c alphabet ≡ some n
unfolding found_at
index_of-get_elem? n c lt h = ground (arith, passes_under_at found_at 36 n lt found_at_table)

pub residue_of_check_digit :
    (r r' c : ℕ)
    → get_elem? alphabet ((36 - r % 36) % 36) ≡ some c
    → get_elem? alphabet ((36 - r' % 36) % 36) ≡ some c
    → r % 36 ≡ r' % 36
residue_of_check_digit r r' c h k =
    let p = index_of-get_elem? ((36 - r % 36) % 36) c (omega arith) h in
    let q = index_of-get_elem? ((36 - r' % 36) % 36) c (omega arith) k in
    let same : (36 - r % 36) % 36 ≡ (36 - r' % 36) % 36 = cc in omega arith
