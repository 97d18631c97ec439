-- ===== src/Billing/Gst/Completion.antt =====
-- src/billing/gst.ts: the check digit that `gstinCheckDigit` computes is one that `isGstin` accepts.
use drasken_labs_communicati.Prelude.{
  Option, ℕ, ◌+◌, ◌-◌, ◌%◌, ◌<◌, ◌≡◌, refl, ◌∙◌, ap, Text, take, text_eq_refl, truthy, Bool, true,
  false, ◌&&◌, none, some, List, [], ◌∷◌, ◌++◌, arith, length, get_elem?, get_elem?_of_lt,
  take-append, get_elem?-append, take_of_le, append-nil, is_digit, is_upper, is_alnum, passes_under,
  passes_under_at, All,
}
use drasken_labs_communicati.Billing.Gst.Copying.{fits-length}
use drasken_labs_communicati.Billing.Gst.CheckDigit.{char_at_lem}
use drasken_labs_communicati.Billing.Gst.{
  state_code_of_gstin, alphabet, index_of, fold_digit, check_sum, gstin_check_digit, fits,
  gstin_shape, is_gstin, gst_states, lookup_state,
}

-- Every character below Z is in the alphabet if it is a digit or a capital.
indexed : ℕ → Bool
indexed c = elim (is_alnum c) [
  | true ↦ elim (index_of c alphabet) [ none ↦ false | some i ↦ true ]
  | false ↦ true
]

indexed_table : passes_under indexed 91 ≡ true
unfolding passes_under indexed index_of
indexed_table = refl

index_of_alnum : (c : ℕ) → is_alnum c ≡ true → (i : ℕ) × (index_of c alphabet ≡ some i)
unfolding indexed
index_of_alnum c h =
    ground (arith, λ (below : c < 91). passes_under_at indexed 91 c below indexed_table)

-- A sum is found of a text of digits and capitals.
all_alnum : Text → Bool
all_alnum [] = true
all_alnum (c ∷ s) = is_alnum c && all_alnum s

check_sum_total : (i s : ℕ) (t : Text) → all_alnum t ≡ true → (r : ℕ) × (check_sum i s t ≡ some r)
unfolding check_sum all_alnum
check_sum_total i s [] h = (s, refl)
check_sum_total i s (c ∷ t) h =
    let (v, e) = index_of_alnum c (ground arith) in
    let (r, later) = check_sum_total (i + 1) (s + fold_digit i v) t (ground arith) in
    (r, rw (e, check_sum) later)

-- The shape of the first fourteen characters.
abbrev pub gstin_stem : List (ℕ → Bool)
gstin_stem = take 14 gstin_shape

abbrev HoldsAlnum : (ℕ → Bool) → Type 0
HoldsAlnum q = (c : ℕ) → q c ≡ true → is_alnum c ≡ true

fits-all_alnum :
    (ps : List (ℕ → Bool)) (t : Text) → All HoldsAlnum ps → fits ps t ≡ true → all_alnum t ≡ true
unfolding fits all_alnum
fits-all_alnum [] [] a h = refl
fits-all_alnum [] (c ∷ t) a h = cc
fits-all_alnum (q ∷ ps) [] a h = cc
fits-all_alnum (q ∷ ps) (c ∷ t) (here, later) h = ground (arith, here c, fits-all_alnum ps t later)

digit_alnum : HoldsAlnum is_digit
digit_alnum c h = ground arith

upper_alnum : HoldsAlnum is_upper
upper_alnum c h = ground arith

stem-HoldsAlnum : All HoldsAlnum gstin_stem
stem-HoldsAlnum = (
  digit_alnum,
  (
    digit_alnum,
    (
      upper_alnum,
      (
        upper_alnum,
        (
          upper_alnum,
          (
            upper_alnum,
            (
              upper_alnum,
              (
                digit_alnum,
                (
                  digit_alnum,
                  (
                    digit_alnum,
                    (digit_alnum, (upper_alnum, ((λ c h. h), ((λ c h. ground arith), tt)))),
                  ),
                ),
              ),
            ),
          ),
        ),
      ),
    ),
  ),
)

alnum_at : ℕ → Bool
alnum_at n = elim (get_elem? alphabet n) [ none ↦ false | some c ↦ is_alnum c ]

alnum_at_table : passes_under alnum_at 36 ≡ true
unfolding passes_under alnum_at
alnum_at_table = refl

is_alnum-alphabet : (n c : ℕ) → n < 36 → get_elem? alphabet n ≡ some c → is_alnum c ≡ true
unfolding alnum_at
is_alnum-alphabet n c lt h = ground (arith, passes_under_at alnum_at 36 n lt alnum_at_table)

fits-append :
    (ps qs : List (ℕ → Bool)) (s t : Text)
    → fits ps s ≡ true
    → fits qs t ≡ true
    → fits (ps ++ qs) (s ++ t) ≡ true
unfolding fits
fits-append [] qs [] t h k = k
fits-append [] qs (c ∷ s) t h k = cc
fits-append (p ∷ ps) qs [] t h k = cc
fits-append (p ∷ ps) qs (c ∷ s) t h k = ground (arith, fits-append ps qs s t)

-- The digit is one character of the alphabet.
check_digit_char :
    (t : Text)
    → fits gstin_stem t ≡ true
    → (c : ℕ) × (gstin_check_digit t ≡ c ∷ []) × (is_alnum c ≡ true)
unfolding gstin_check_digit
check_digit_char t h =
    let (r, e) = check_sum_total 0 0 t (fits-all_alnum gstin_stem t stem-HoldsAlnum h) in
    let (c, at_c) = get_elem?_of_lt alphabet ((36 - r % 36) % 36) (omega arith) in
    (
      c,
      rw (e, gstin_check_digit) (char_at_lem alphabet ((36 - r % 36) % 36) c at_c),
      is_alnum-alphabet ((36 - r % 36) % 36) c (omega arith) at_c,
    )

is_gstin_of_char :
    (t : Text) (c : ℕ)
    → fits gstin_stem t ≡ true
    → truthy (lookup_state (take 2 t) gst_states) ≡ true
    → gstin_check_digit t ≡ c ∷ []
    → is_alnum c ≡ true
    → is_gstin (some (t ++ c ∷ [])) ≡ true
unfolding is_gstin
is_gstin_of_char t c h known e alnum =
    let len = fits-length gstin_stem t h in
    let stem = take-append 14 t (c ∷ []) 0 (omega arith) ∙ append-nil t in
    let ends = get_elem?-append 14 t (c ∷ []) 0 (omega arith) in
    let start = take_of_le 2 t (c ∷ []) (omega arith) in
    let whole : fits gstin_shape (t ++ c ∷ []) ≡ true =
      fits-append gstin_stem (is_alnum ∷ []) t (c ∷ []) h (unfold fits in ground arith) in
    rw (whole, start, known, stem, char_at_lem (t ++ c ∷ []) 14 c ends, e) (text_eq_refl (c ∷ []))

-- Fourteen characters of the shape that begin with a known state code become an accepted GSTIN by
-- the check digit computed from them, which is one digit or capital.
pub gstin_check_digit-is_gstin :
    (t : Text)
    → fits gstin_stem t ≡ true
    → truthy (lookup_state (take 2 t) gst_states) ≡ true
    → (length (gstin_check_digit t) ≡ 1) × (is_gstin (some (t ++ gstin_check_digit t)) ≡ true)
gstin_check_digit-is_gstin t h known =
    let (c, e, alnum) = check_digit_char t h in
    (ap length e, rw e (is_gstin_of_char t c h known e alnum))

-- A valid GSTIN names a state.
pub state_code_of_gstin-is_gstin :
    (g : Option Text) → is_gstin g ≡ true → (c d : ℕ) × (state_code_of_gstin g ≡ some (c ∷ d ∷ []))
unfolding is_gstin state_code_of_gstin fits
state_code_of_gstin-is_gstin none h = cc
state_code_of_gstin-is_gstin (some []) h = ground arith
state_code_of_gstin-is_gstin (some (c ∷ [])) h = ground arith
state_code_of_gstin-is_gstin (some (c ∷ d ∷ s)) h = (c, d, ground arith)
