-- ===== src/Billing/Gst/Copying.antt =====
-- src/billing/gst.ts: which mistakes in copying a GSTIN the validation catches.
use drasken_labs_communicati.Prelude.{
  ℕ, zero, suc, ◌+◌, ◌-◌, ◌%◌, ◌≡◌, refl, sym, ◌∙◌, ◌⊎◌, inl, inr, Text, take, text_eq_sound, Bool,
  not, true, ◌&&◌, some, List, [], ◌∷◌, ◌++◌, arith, length, get_elem?, get_elem?_of_lt,
  take-append, get_elem?-append, length-append, Option-cases, ◌==◌,
}
use drasken_labs_communicati.Billing.Gst.{
  alphabet, check_sum, gstin_check_digit, char_at, fits, gstin_shape, is_gstin,
}
use drasken_labs_communicati.Billing.Gst.CheckDigit.{
  check_sum_substitute, check_sum_transpose, AreZeroAndZ, residue_of_check_digit,
}

-- What an accepted text satisfies: its shape, and the sum of its first part against its last.
record IsChecked (value : Text) : Type 0 where
  shape : fits gstin_shape value ≡ true
  sum : ℕ
  summed : check_sum 0 0 (take 14 value) ≡ some sum
  check : ℕ
  stands : get_elem? value 14 ≡ some check
  last : get_elem? alphabet ((36 - sum % 36) % 36) ≡ some check

pub fits-length : (ps : List (ℕ → Bool)) (s : Text) → fits ps s ≡ true → length s ≡ length ps
unfolding fits
fits-length [] [] h = refl
fits-length [] (c ∷ s) h = cc
fits-length (p ∷ ps) [] h = cc
fits-length (p ∷ ps) (c ∷ s) h = ground (arith, fits-length ps s)

is_gstin-IsChecked : (value : Text) → is_gstin (some value) ≡ true → IsChecked value
unfolding is_gstin gstin_check_digit
is_gstin-IsChecked value h =
    let shaped : fits gstin_shape value ≡ true = ground arith in
    let (c, at_c) =
      get_elem?_of_lt value 14 (omega (arith, fits-length gstin_shape value shaped)) in
    let equal =
      text_eq_sound (char_at value 14) (gstin_check_digit (take 14 value)) (ground arith) in
    elim (Option-cases (check_sum 0 0 (take 14 value))) [
      | inl e ↦ ground arith
      | inr (r, e) ↦ record {
        shape = shaped;
        sum = r;
        summed = e;
        check = c;
        stands = at_c;
        last = ground arith;
      }
    ]

-- Two accepted texts with the same last character have sums that agree modulo 36.
same_residue :
    {s t : Text} (a : IsChecked s) (b : IsChecked t)
    → get_elem? s 14 ≡ get_elem? t 14
    → a.sum % 36 ≡ b.sum % 36
same_residue {s} {t} a b e =
    let same : a.check ≡ b.check = ground (arith, a.stands, b.stands) in
    residue_of_check_digit a.sum b.sum a.check a.last (rw same b.last)

substitute :
    (p : Text) (x y : ℕ) (t : Text) (k : ℕ)
    → 14 ≡ length p + k
    → IsChecked (p ++ x ∷ t)
    → IsChecked (p ++ y ∷ t)
    → x ≡ y
substitute p x y t zero e a b =
    let hx = rw (take-append 14 p (x ∷ t) 0 e) at a.summed in
    let hy = rw (take-append 14 p (y ∷ t) 0 e) at b.summed in
    let same : a.sum ≡ b.sum = cc in
    let at_x = get_elem?-append 14 p (x ∷ t) 0 e in
    let at_y = get_elem?-append 14 p (y ∷ t) 0 e in
    let last_x : get_elem? alphabet ((36 - a.sum % 36) % 36) ≡ some x =
      a.last ∙ sym a.stands ∙ at_x in
    let last_y : get_elem? alphabet ((36 - a.sum % 36) % 36) ≡ some y =
      rw same (b.last ∙ sym b.stands ∙ at_y) in
    cc
substitute p x y t (suc k) e a b =
    check_sum_substitute 0 0 p x y (take k t) a.sum b.sum
      (rw (take-append 14 p (x ∷ t) (suc k) e) at a.summed)
      (rw (take-append 14 p (y ∷ t) (suc k) e) at b.summed)
      (same_residue a b
        (get_elem?-append 14 p (x ∷ t) (suc k) e ∙ sym (get_elem?-append 14 p (y ∷ t) (suc k) e)))

-- Neighbouring classes of the shape do not both hold 0 and Z.
separates : List (ℕ → Bool) → Bool
separates [] = true
separates (p ∷ []) = true
separates (p ∷ q ∷ ps) = not (p b'0' && (q b'0' && (p b'Z' && q b'Z'))) && separates (q ∷ ps)

not_zero_and_z :
    (ps : List (ℕ → Bool)) (p : Text) (x y : ℕ) (t : Text)
    → separates ps ≡ true
    → fits ps (p ++ x ∷ y ∷ t) ≡ true
    → fits ps (p ++ y ∷ x ∷ t) ≡ true
    → ¬ AreZeroAndZ x y
unfolding separates fits
not_zero_and_z [] [] x y t h a b z = cc
not_zero_and_z (f ∷ []) [] x y t h a b z = ground arith
not_zero_and_z (f ∷ g ∷ ps) [] x y t h a b (inl (ex, ey)) =
    let a' = rw (ex, ey) at a in let b' = rw (ex, ey) at b in ground arith
not_zero_and_z (f ∷ g ∷ ps) [] x y t h a b (inr (ex, ey)) =
    let a' = rw (ex, ey) at a in let b' = rw (ex, ey) at b in ground arith
not_zero_and_z [] (c ∷ p) x y t h a b z = cc
not_zero_and_z (f ∷ []) (c ∷ p) x y t h a b z = ground (arith, not_zero_and_z [] p x y t)
not_zero_and_z (f ∷ g ∷ ps) (c ∷ p) x y t h a b z = ground (arith, not_zero_and_z (g ∷ ps) p x y t)

fits_at :
    (ps : List (ℕ → Bool)) (s : Text) (i : ℕ) (q : ℕ → Bool) (c : ℕ)
    → fits ps s ≡ true
    → get_elem? ps i ≡ some q
    → get_elem? s i ≡ some c
    → q c ≡ true
unfolding fits
fits_at [] s i q c h e k = cc
fits_at (f ∷ ps) [] i q c h e k = cc
fits_at (f ∷ ps) (d ∷ s) zero q c h e k = let here : f d ≡ true = ground arith in cc
fits_at (f ∷ ps) (d ∷ s) (suc i) q c h e k = fits_at ps s i q c (ground arith) e k

-- The fourteenth character is Z.
fourteenth :
    (p : Text) (x y : ℕ) (t : Text)
    → 13 ≡ length p + 0
    → fits gstin_shape (p ++ x ∷ y ∷ t) ≡ true
    → x ≡ b'Z'
fourteenth p x y t e h =
    let is_z =
      fits_at gstin_shape (p ++ x ∷ y ∷ t) 13 (λ c. c == b'Z') x h refl
        (get_elem?-append 13 p (x ∷ y ∷ t) 0 e) in
    ground arith

transpose :
    (p : Text) (x y : ℕ) (t : Text) (k : ℕ)
    → 13 ≡ length p + k
    → IsChecked (p ++ x ∷ y ∷ t)
    → IsChecked (p ++ y ∷ x ∷ t)
    → x ≡ y
unfolding separates
transpose p x y t zero e a b =
    let hx = fourteenth p x y t e a.shape in let hy = fourteenth p y x t e b.shape in cc
transpose p x y t (suc k) e a b = elim exchanged [ inl same ↦ same | inr z ↦ absurd (apart z) ]
  where
    whole : 14 ≡ length p + suc (suc k)
    whole = omega arith

    exchanged : (x ≡ y) ⊎ AreZeroAndZ x y
    exchanged =
        check_sum_transpose 0 0 p x y (take k t) a.sum b.sum
          (rw (take-append 14 p (x ∷ y ∷ t) (suc (suc k)) whole) at a.summed)
          (rw (take-append 14 p (y ∷ x ∷ t) (suc (suc k)) whole) at b.summed)
          (same_residue a b (
            get_elem?-append 14 p (x ∷ y ∷ t) (suc (suc k)) whole
            ∙ sym (get_elem?-append 14 p (y ∷ x ∷ t) (suc (suc k)) whole)))

    apart : ¬ AreZeroAndZ x y
    apart = not_zero_and_z gstin_shape p x y t refl a.shape b.shape

-- The length of an accepted text, seen from a place within it.
length_of_parts : (p t : Text) → IsChecked (p ++ t) → length p + length t ≡ 15
length_of_parts p t a = omega (arith, fits-length gstin_shape (p ++ t) a.shape, length-append p t)

-- Two accepted GSTINs that agree everywhere but in one character, wherever it stands, agree there
-- too: a single wrong character is always caught.
pub is_gstin-substitute :
    (p : Text) (x y : ℕ) (t : Text)
    → is_gstin (some (p ++ x ∷ t)) ≡ true
    → is_gstin (some (p ++ y ∷ t)) ≡ true
    → x ≡ y
is_gstin-substitute p x y t h k =
    let a = is_gstin-IsChecked (p ++ x ∷ t) h in
    substitute p x y t (14 - length p) (omega (arith, length_of_parts p (x ∷ t) a)) a
      (is_gstin-IsChecked (p ++ y ∷ t) k)

-- If a GSTIN and the text with two neighbouring characters exchanged are both accepted, the two
-- characters are the same: an exchange of neighbours is always caught, the check digit included.
pub is_gstin-transpose :
    (p : Text) (x y : ℕ) (t : Text)
    → is_gstin (some (p ++ x ∷ y ∷ t)) ≡ true
    → is_gstin (some (p ++ y ∷ x ∷ t)) ≡ true
    → x ≡ y
is_gstin-transpose p x y t h k =
    let a = is_gstin-IsChecked (p ++ x ∷ y ∷ t) h in
    transpose p x y t (13 - length p) (omega (arith, length_of_parts p (x ∷ y ∷ t) a)) a
      (is_gstin-IsChecked (p ++ y ∷ x ∷ t) k)
